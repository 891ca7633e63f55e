-- ===== src/Sync/WaitCalls.antt =====
-- The methods that wait, poll and cancel, through ctypes.
use pyuring.Sync.Waits
use pyuring.Sync.Accepted.{siginfo-memory, request_of-WhenOk, WhenOk, Reaches, taken-Reaches}
use Prim.Native.Nat.{zero, suc, ℕ}
use pyuring.Prelude.{refl, pos, negsuc, Bool, Option, ℕ, ℤ}
use mathlib.Core.Bool.{false, true}
use pyuring.Sync.Request.{Buffer}
use pyuring.Sync.Waits.{siginfo}

epoll_ctl-Reaches : (i i2 i3 : ℤ) (b : Bool) → Reaches (Waits.epoll_ctl i i2 i3 b)
epoll_ctl-Reaches i i2 i3 true = taken-Reaches _ refl
epoll_ctl-Reaches i i2 i3 false = taken-Reaches _ refl

epoll_wait-Reaches : (i i2 i3 : ℤ) → WhenOk Reaches (Waits.epoll_wait i i2 i3)
epoll_wait-Reaches i (negsuc n) i3 = tt
epoll_wait-Reaches i (pos zero) i3 = tt
epoll_wait-Reaches i (pos (suc n)) i3 = taken-Reaches _ refl

waitid-Reaches : (i i2 i3 i4 : ℤ) (o : Option Buffer) → WhenOk Reaches (Waits.waitid i i2 i3 i4 o)
waitid-Reaches i i2 i3 i4 o =
    request_of-WhenOk Reaches (siginfo o) _
      (siginfo-memory _ o (taken-Reaches _ refl) (λ n. taken-Reaches _ refl))

futex_waitv-Reaches : (n : ℕ) (i : ℤ) → WhenOk Reaches (Waits.futex_waitv n i)
futex_waitv-Reaches zero i = tt
futex_waitv-Reaches (suc n) i = taken-Reaches _ refl

-- The requests of the methods that wait, poll and cancel, without `futex_wake` and `futex_wait`.
abbrev pub WaitMethodsReach : Type 0
WaitMethodsReach =
    ((i i2 i3 : ℤ) → Reaches (Waits.poll_add i i2 i3))
    × ((i : ℤ) → Reaches (Waits.poll_remove i))
    × ((i i2 : ℤ) → Reaches (Waits.async_cancel_fd i i2))
    × ((i i2 i3 : ℤ) → Reaches (Waits.link_timeout i i2 i3))
    × ((i i2 i3 : ℤ) (b : Bool) → Reaches (Waits.epoll_ctl i i2 i3 b))
    × ((i i2 i3 i4 : ℤ) → Reaches (Waits.poll_update i i2 i3 i4))
    × ((i i2 i3 i4 : ℤ) → Reaches (Waits.timeout_update i i2 i3 i4))
    × ((i i2 i3 : ℤ) → WhenOk Reaches (Waits.epoll_wait i i2 i3))
    × ((i i2 i3 i4 : ℤ) (o : Option Buffer) → WhenOk Reaches (Waits.waitid i i2 i3 i4 o))
    × ((n : ℕ) (i : ℤ) → WhenOk Reaches (Waits.futex_waitv n i))
    × ((i i2 i3 i4 i5 : ℤ) → Reaches (Waits.timeout i i2 i3 i4 i5))
    × ((i i2 : ℤ) → Reaches (Waits.timeout_remove i i2))
    × ((i i2 : ℤ) → Reaches (Waits.async_cancel i i2))
    × ((i i2 i3 : ℤ) → Reaches (Waits.timeout_arm_remove_pair i i2 i3))

pub wait_methods-Reach : WaitMethodsReach
wait_methods-Reach = (
  (λ i i2 i3. taken-Reaches _ refl),
  (λ i. taken-Reaches _ refl),
  (λ i i2. taken-Reaches _ refl),
  (λ i i2 i3. taken-Reaches _ refl),
  epoll_ctl-Reaches,
  (λ i i2 i3 i4. taken-Reaches _ refl),
  (λ i i2 i3 i4. taken-Reaches _ refl),
  epoll_wait-Reaches,
  waitid-Reaches,
  futex_waitv-Reaches,
  (λ i i2 i3 i4 i5. taken-Reaches _ refl),
  (λ i i2. taken-Reaches _ refl),
  (λ i i2. taken-Reaches _ refl),
  (λ i i2 i3. taken-Reaches _ refl),
)
