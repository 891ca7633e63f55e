-- ===== src/Pipeline/State.antt =====
-- csrc/uring_wrap.c, what its pipelines share: the slots and their buffers, the user data of an entry,
-- the choice of a block's size. The kernel's part is what an entry moves when it completes, and how
-- each call of liburing ends, which a `Turn` gives. An array is a function of the index, a file the
-- bytes at every offset and its size.
use pyuring.Prelude.{
  ℕ, zero, suc, ◌+◌, ◌-◌, ◌*◌, ◌/◌, ◌%◌, max, Bool, ◌&&◌, Option, none, some, List, [], ◌∷◌, ℤ, pos,
  negsuc, ltb, leb, ◌==◌, if◌then◌else◌,
}

abbrev pub word : ℕ
word = 4294967296

-- The two halves do not overlap, so that the `|` of the source is a sum.
unfoldable pub pack_ud : ℕ → ℕ → ℕ
pack_ud op slot = (op % word) * word + slot % word

unfoldable pub ud_op : ℕ → ℕ
ud_op ud = ud / word % word

unfoldable pub ud_slot : ℕ → ℕ
ud_slot ud = ud % word

pub record CopySlot : Type 0 where
  pub buf : ℕ → ℕ
  pub off : ℕ
  pub len : ℕ
  pub active : Bool

-- `slots[i] = s`.
unfoldable pub put : (ℕ → CopySlot) → ℕ → CopySlot → ℕ → CopySlot
put slots i s j = if i == j then s else slots j

pub data Opcode : Type 0 where
  op_read op_write : Opcode

-- The `op` of the user data: 0 for a read, 1 for a write.
abbrev pub op_code : Opcode → ℕ
op_code op_read = 0
op_code op_write = 1

-- An entry of the ring that has not completed. Its address is the buffer of a slot.
pub record Entry : Type 0 where
  pub opcode : Opcode
  pub user_data : ℕ
  pub slot : ℕ
  pub off : ℕ
  pub len : ℕ

abbrev pub entry : Opcode → ℕ → ℕ → ℕ → Entry
entry o slot off len = record {
  opcode = o;
  user_data = pack_ud (op_code o) slot;
  slot = slot;
  off = off;
  len = len;
}

pub record File : Type 0 where
  pub bytes : ℕ → ℕ
  pub size : ℕ

abbrev pub empty_file : File
empty_file = record { bytes = λ i. 0; size = 0 }

-- The kernel's side of a write of n bytes: what it skips over is zero.
unfoldable pub pwrite : (ℕ → ℕ) → ℕ → ℕ → File → File
pwrite buf off n f = record {
  bytes = λ i. if leb off i && ltb i (off + n) then buf (i - off) else f.bytes i;
  size = if n == 0 then f.size else max f.size (off + n);
}

unfoldable pub ftruncate : ℕ → File → File
ftruncate n f = record { bytes = λ i. if ltb i n then f.bytes i else 0; size = n }

-- The kernel's side of a read of n bytes into a buffer.
unfoldable pub pread : (ℕ → ℕ) → ℕ → ℕ → (ℕ → ℕ) → ℕ → ℕ
pread content off n buf k = if ltb k n then content (off + k) else buf k

-- How the calls of one turn of a loop end: `io_uring_wait_cqe`, the entry that completes (the last one
-- when the index is too large), its error number (0 for none) or how many bytes fewer than asked
-- it moves, `io_uring_get_sqe` and `io_uring_submit`, which may leave entries in the queue: the source
-- looks only at the sign of its answer.
pub record Turn : Type 0 where
  pub wait : ℤ
  pub which : ℕ
  pub errno : ℕ
  pub lack : ℕ
  pub sqe : Bool
  pub submit : ℤ
  pub left_queued : ℕ

-- `res` of the completion.
unfoldable pub answer : Turn → Entry → ℤ
answer turn e = if turn.errno == 0 then pos (e.len - turn.lack) else negsuc (turn.errno - 1)

unfoldable pub moved : Turn → Entry → ℕ
moved turn e = if turn.errno == 0 then e.len - turn.lack else 0

-- The entry that completes, and those left in the ring.
unfoldable pub taken {ℓ} : {A : Type ℓ} → ℕ → A → List A → A × List A
taken i e [] = (e, [])
taken zero e (f ∷ es) = (e, f ∷ es)
taken (suc i) e (f ∷ es) = let r = taken i f es in (r.0, e ∷ r.1)

-- `buffer_size_cb`, with its user data: offset, total, default size.
abbrev pub SizeCb : Type 0
SizeCb = ℕ → ℕ → ℕ → ℕ

-- The cap on `max_buffer_size`: 64u * 1024u * 1024u.
abbrev pub buffer_cap : ℕ
buffer_cap = 67108864

-- The loop that probes the callback, from `test_off` on.
unfoldable pub probe : SizeCb → ℕ → ℕ → ℕ → ℕ → ℕ → ℕ
probe cb total block_size zero test_off best = best
probe cb total block_size (suc fuel) test_off best =
    let raised = max best (cb test_off total block_size) in
    let rest = probe cb total block_size fuel (test_off + block_size) raised in
    if ltb test_off total then if ltb buffer_cap raised then buffer_cap else rest else best

-- `max_buffer_size`. Fuel `total` is enough, since every step advances by at least one byte.
unfoldable pub max_buffer : Option SizeCb → ℕ → ℕ → ℕ
max_buffer none total block_size = block_size
max_buffer (some cb) total block_size = probe cb total block_size total 0 block_size

abbrev pub chosen : Option SizeCb → ℕ → ℕ → ℕ → ℕ → ℕ
chosen none total block_size max_size off = block_size
chosen (some cb) total block_size max_size off =
    let size = cb off total block_size in
    if ltb 0 size && leb size max_size then size else block_size

-- `want` for the block at an offset: the callback's size when it is usable, cut to what remains.
unfoldable pub want_at : Option SizeCb → ℕ → ℕ → ℕ → ℕ → ℕ
want_at cb total block_size max_size off =
    let want = chosen cb total block_size max_size off in
    let remain = total - off in if ltb remain want then remain else want
