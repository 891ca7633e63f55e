-- ===== src/Sync/SocketCalls.antt =====
-- The methods on sockets through ctypes.
use pyuring.Sync.Sockets
use pyuring.Sync.Accepted.{WhenOk, Reaches, with_buffer-WhenOk, taken-Reaches}
use pyuring.Prelude.{suc, pos, negsuc, refl, some, Option, ℤ}
use pyuring.Sync.Request.{Buffer}
use mathlib.Core.Option.{none}
use Prim.Native.Nat.{zero}

cmd_sock-Reaches :
    (i i2 i3 i4 : ℤ) (o : Option Buffer) (i5 : ℤ) → Reaches (Sockets.cmd_sock i i2 i3 i4 o i5)
cmd_sock-Reaches i i2 i3 i4 none i5 = taken-Reaches _ refl
cmd_sock-Reaches i i2 i3 i4 (some buf) (negsuc n) = taken-Reaches _ refl
cmd_sock-Reaches i i2 i3 i4 (some buf) (pos zero) = taken-Reaches _ refl
cmd_sock-Reaches i i2 i3 i4 (some buf) (pos (suc n)) = taken-Reaches _ refl

-- The requests of the methods on sockets.
abbrev pub SocketMethodsReach : Type 0
SocketMethodsReach =
    ((i : ℤ) (buf : Buffer) (i2 : ℤ) → Reaches (Sockets.send i buf i2))
    × ((i : ℤ) (buf : Buffer) (i2 : ℤ) → WhenOk Reaches (Sockets.recv i buf i2))
    × ((i i2 : ℤ) → Reaches (Sockets.accept i i2))
    × ((i : ℤ) (buf : Buffer) (i2 : ℤ) → Reaches (Sockets.connect i buf i2))
    × ((i i2 : ℤ) → Reaches (Sockets.shutdown i i2))
    × ((i i2 i3 : ℤ) → Reaches (Sockets.multishot_accept_submit i i2 i3))
    × ((i i2 i3 i4 : ℤ) → Reaches (Sockets.recv_multishot_buffer_group_submit i i2 i3 i4))
    × ((i i2 i3 i4 : ℤ) → Reaches (Sockets.socket i i2 i3 i4))
    × ((i : ℤ) (buf : Buffer) (i2 : ℤ) → Reaches (Sockets.bind i buf i2))
    × ((i i2 : ℤ) → Reaches (Sockets.listen i i2))
    × ((i : ℤ) (buf : Buffer) (i2 : ℤ) → WhenOk Reaches (Sockets.recv_multishot i buf i2))
    × ((i : ℤ) (buf : Buffer) (i2 i3 : ℤ) → Reaches (Sockets.send_zc i buf i2 i3))
    × ((i : ℤ) (buf : Buffer) (i2 i3 i4 : ℤ)
        → WhenOk Reaches (Sockets.send_zc_fixed i buf i2 i3 i4))
    × ((i : ℤ) (buf : Buffer) (i2 i3 : ℤ) → WhenOk Reaches (Sockets.recv_zc i buf i2 i3))
    × ((i i2 i3 i4 : ℤ) (o : Option Buffer) (i5 : ℤ) → Reaches (Sockets.cmd_sock i i2 i3 i4 o i5))
    × ((i : ℤ) (buf : Buffer) (i2 : ℤ) → WhenOk Reaches (Sockets.cmd_getsockname i buf i2))
    × ((i i2 i3 i4 i5 : ℤ) → Reaches (Sockets.socket_direct i i2 i3 i4 i5))
    × ((i i2 i3 i4 : ℤ) → Reaches (Sockets.socket_direct_alloc i i2 i3 i4))
    × ((i i2 i3 : ℤ) → Reaches (Sockets.send_bundle i i2 i3))
    × ((i : ℤ) (buf : Buffer) (i2 : ℤ) (buf2 : Buffer) (i3 : ℤ)
        → Reaches (Sockets.sendto i buf i2 buf2 i3))

pub socket_methods-Reach : SocketMethodsReach
socket_methods-Reach = (
  (λ i buf i2. taken-Reaches _ refl),
  (λ i buf i2. with_buffer-WhenOk Reaches _ buf _ (taken-Reaches _ refl)),
  (λ i i2. taken-Reaches _ refl),
  (λ i buf i2. taken-Reaches _ refl),
  (λ i i2. taken-Reaches _ refl),
  (λ i i2 i3. taken-Reaches _ refl),
  (λ i i2 i3 i4. taken-Reaches _ refl),
  (λ i i2 i3 i4. taken-Reaches _ refl),
  (λ i buf i2. taken-Reaches _ refl),
  (λ i i2. taken-Reaches _ refl),
  (λ i buf i2. with_buffer-WhenOk Reaches _ buf _ (taken-Reaches _ refl)),
  (λ i buf i2 i3. taken-Reaches _ refl),
  (λ i buf i2 i3 i4. with_buffer-WhenOk Reaches _ buf _ (taken-Reaches _ refl)),
  (λ i buf i2 i3. with_buffer-WhenOk Reaches _ buf _ (taken-Reaches _ refl)),
  cmd_sock-Reaches,
  (λ i buf i2. with_buffer-WhenOk Reaches _ buf _ (taken-Reaches _ refl)),
  (λ i i2 i3 i4 i5. taken-Reaches _ refl),
  (λ i i2 i3 i4. taken-Reaches _ refl),
  (λ i i2 i3. taken-Reaches _ refl),
  (λ i buf i2 buf2 i3. taken-Reaches _ refl),
)
