-- ===== src/Sync/SocketSpans.antt =====
-- What C reads and writes for the methods on sockets.
use pyuring.Sync.Sockets
use pyuring.Prelude.{pos, ℕ, arith, ℤ}
use pyuring.Sync.Request.{Buffer}
use pyuring.Sync.Accepted.{WhenOk, with_buffer-WhenOk}
use pyuring.Sync.Spans.{Fits}

-- The requests of the methods on sockets that pass a pointer to memory, without `cmd_sock`, for the
-- lengths of addresses that are not negative.
abbrev pub SocketMethodsFit : Type 0
SocketMethodsFit =
    ((i : ℤ) (buf : Buffer) (i2 : ℤ) → Fits (Sockets.send i buf i2))
    × ((i : ℤ) (buf : Buffer) (i2 : ℤ) → WhenOk Fits (Sockets.recv i buf i2))
    × ((i i2 : ℤ) → Fits (Sockets.accept i i2))
    × ((i : ℤ) (buf : Buffer) (n : ℕ) → Fits (Sockets.connect i buf (pos n)))
    × ((i : ℤ) (buf : Buffer) (n : ℕ) → Fits (Sockets.bind i buf (pos n)))
    × ((i : ℤ) (buf : Buffer) (i2 : ℤ) (buf2 : Buffer) (n : ℕ)
        → Fits (Sockets.sendto i buf i2 buf2 (pos n)))
    × ((i : ℤ) (buf : Buffer) (i2 : ℤ) → WhenOk Fits (Sockets.recv_multishot i buf i2))
    × ((i : ℤ) (buf : Buffer) (i2 i3 : ℤ) → Fits (Sockets.send_zc i buf i2 i3))
    × ((i : ℤ) (buf : Buffer) (i2 i3 i4 : ℤ) → WhenOk Fits (Sockets.send_zc_fixed i buf i2 i3 i4))
    × ((i : ℤ) (buf : Buffer) (i2 i3 : ℤ) → WhenOk Fits (Sockets.recv_zc i buf i2 i3))

pub socket_methods-Fit : SocketMethodsFit
socket_methods-Fit = (
  (λ i buf i2. (omega arith, tt)),
  (λ i buf i2. with_buffer-WhenOk Fits _ buf _ (ground arith)),
  (λ i i2. (omega arith, (omega arith, tt))),
  (λ i buf n. (omega arith, tt)),
  (λ i buf n. (omega arith, tt)),
  (λ i buf i2 buf2 n. (omega arith, (omega arith, tt))),
  (λ i buf i2. with_buffer-WhenOk Fits _ buf _ (ground arith)),
  (λ i buf i2 i3. (omega arith, tt)),
  (λ i buf i2 i3 i4. with_buffer-WhenOk Fits _ buf _ (ground arith)),
  (λ i buf i2 i3. with_buffer-WhenOk Fits _ buf _ (ground arith)),
)
