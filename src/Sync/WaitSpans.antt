-- ===== src/Sync/WaitSpans.antt =====
-- What C reads and writes for the methods that wait, and on pipes and fixed buffers.
use pyuring.Sync.Waits
use pyuring.Sync.Messages
use pyuring.Sync.Accepted.{siginfo-large, request_of-WhenOk, WhenOk, with_buffer-WhenOk}
use Prim.Native.Nat.{zero, suc, ℕ}
use pyuring.Prelude.{pos, arith, negsuc, Option, ℕ, ℤ}
use pyuring.Sync.Spans.{Fits}
use pyuring.Sync.Request.{Buffer}
use pyuring.Sync.Waits.{siginfo}

epoll_wait-Fits : (i i2 i3 : ℤ) → WhenOk Fits (Waits.epoll_wait i i2 i3)
epoll_wait-Fits i (negsuc n) i3 = tt
epoll_wait-Fits i (pos zero) i3 = tt
epoll_wait-Fits i (pos (suc n)) i3 = (omega arith, tt)

futex_waitv-Fits : (n : ℕ) (i : ℤ) → WhenOk Fits (Waits.futex_waitv n i)
futex_waitv-Fits zero i = tt
futex_waitv-Fits (suc n) i = (omega arith, tt)

waitid-Fits : (i i2 i3 i4 : ℤ) (o : Option Buffer) → WhenOk Fits (Waits.waitid i i2 i3 i4 o)
waitid-Fits i i2 i3 i4 o =
    request_of-WhenOk Fits (siginfo o) _ (siginfo-large _ o (ground arith) (λ n h. ground arith))

-- The requests of the methods that wait, and on pipes and fixed buffers, that pass a pointer.
abbrev pub WaitMethodsFit : Type 0
WaitMethodsFit =
    ((i i2 i3 : ℤ) → WhenOk Fits (Waits.epoll_wait i i2 i3))
    × ((i i2 i3 i4 : ℤ) (o : Option Buffer) → WhenOk Fits (Waits.waitid i i2 i3 i4 o))
    × ((n : ℕ) (i : ℤ) → WhenOk Fits (Waits.futex_waitv n i))
    × ((i : ℤ) (buf : Buffer) (i2 i3 : ℤ) → WhenOk Fits (Messages.read_fixed i buf i2 i3))
    × ((i : ℤ) (buf : Buffer) (i2 i3 : ℤ) → WhenOk Fits (Messages.write_fixed i buf i2 i3))
    × ((i : ℤ) (buf : Buffer) (i2 i3 i4 : ℤ)
        → WhenOk Fits (Messages.link_read_write i buf i2 i3 i4))
    × ((i : ℤ) → Fits (Messages.pipe i))
    × ((i i2 : ℤ) → Fits (Messages.pipe_direct i i2))

pub wait_methods-Fit : WaitMethodsFit
wait_methods-Fit = (
  epoll_wait-Fits,
  waitid-Fits,
  futex_waitv-Fits,
  (λ i buf i2 i3. with_buffer-WhenOk Fits _ buf _ (ground arith)),
  (λ i buf i2 i3. with_buffer-WhenOk Fits _ buf _ (ground arith)),
  (λ i buf i2 i3 i4. with_buffer-WhenOk Fits _ buf _ (ground arith)),
  (λ i. (omega arith, tt)),
  (λ i i2. (omega arith, tt)),
)
