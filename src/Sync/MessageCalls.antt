-- ===== src/Sync/MessageCalls.antt =====
-- The methods on pipes, messages, commands and fixed buffers through ctypes.
use pyuring.Sync.Messages
use pyuring.Prelude.{refl, ℤ}
use pyuring.Sync.Accepted.{WhenOk, taken-Reaches, Reaches, with_buffer-WhenOk}
use pyuring.Sync.Request.{Buffer}

-- The requests of the methods on pipes, messages between rings, commands and fixed buffers.
abbrev pub MessageMethodsReach : Type 0
MessageMethodsReach =
    ((i : ℤ) (buf : Buffer) (i2 i3 : ℤ) → WhenOk Reaches (Messages.read_fixed i buf i2 i3))
    × ((i : ℤ) (buf : Buffer) (i2 i3 : ℤ) → WhenOk Reaches (Messages.write_fixed i buf i2 i3))
    × ((i : ℤ) → Reaches (Messages.probe_opcode_supported i))
    × (Reaches Messages.probe_last_op)
    × (Reaches Messages.nop)
    × ((i i2 i3 i4 i5 i6 : ℤ) → Reaches (Messages.splice i i2 i3 i4 i5 i6))
    × ((i i2 i3 i4 : ℤ) → Reaches (Messages.tee i i2 i3 i4))
    × ((i : ℤ) → Reaches (Messages.pipe i))
    × ((i i2 i3 i4 : ℤ) → Reaches (Messages.msg_ring i i2 i3 i4))
    × (Reaches Messages.nop128)
    × ((i i2 : ℤ) → Reaches (Messages.uring_cmd i i2))
    × ((i i2 : ℤ) → Reaches (Messages.uring_cmd128 i i2))
    × ((i i2 : ℤ) → Reaches (Messages.fixed_fd_install i i2))
    × ((i i2 : ℤ) → Reaches (Messages.pipe_direct i i2))
    × ((i i2 i3 i4 i5 : ℤ) → Reaches (Messages.msg_ring_fd i i2 i3 i4 i5))
    × ((i i2 i3 i4 : ℤ) → Reaches (Messages.msg_ring_fd_alloc i i2 i3 i4))
    × ((i i2 i3 i4 i5 : ℤ) → Reaches (Messages.msg_ring_cqe_flags i i2 i3 i4 i5))
    × ((i : ℤ) (buf : Buffer) (i2 i3 i4 : ℤ)
        → WhenOk Reaches (Messages.link_read_write i buf i2 i3 i4))

pub message_methods-Reach : MessageMethodsReach
message_methods-Reach = (
  (λ i buf i2 i3. with_buffer-WhenOk Reaches _ buf _ (taken-Reaches _ refl)),
  (λ i buf i2 i3. with_buffer-WhenOk Reaches _ buf _ (taken-Reaches _ refl)),
  (λ i. taken-Reaches _ refl),
  (taken-Reaches _ refl),
  (taken-Reaches _ refl),
  (λ i i2 i3 i4 i5 i6. taken-Reaches _ refl),
  (λ i i2 i3 i4. taken-Reaches _ refl),
  (λ i. taken-Reaches _ refl),
  (λ i i2 i3 i4. taken-Reaches _ refl),
  (taken-Reaches _ refl),
  (λ i i2. taken-Reaches _ refl),
  (λ i i2. taken-Reaches _ refl),
  (λ i i2. taken-Reaches _ refl),
  (λ i i2. taken-Reaches _ refl),
  (λ i i2 i3 i4 i5. taken-Reaches _ refl),
  (λ i i2 i3 i4. taken-Reaches _ refl),
  (λ i i2 i3 i4 i5. taken-Reaches _ refl),
  (λ i buf i2 i3 i4. with_buffer-WhenOk Reaches _ buf _ (taken-Reaches _ refl)),
)
