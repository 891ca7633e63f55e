-- ===== src/Pipeline/Manyfiles.antt =====
-- csrc/uring_wrap.c, `uring_write_manyfiles`. The `off` and `len` of a slot and `slot_file` are set and
-- never read, so that a slot is its number; `free_slots` is a stack, and its length is `free_count`.
use pyuring.Prelude.{
  ℕ, zero, suc, ◌+◌, ◌-◌, ◌*◌, ◌%◌, Bool, true, ◌||◌, ◌&&◌, not, Option, none, some, List, [], ◌∷◌,
  ◌++◌, ℤ, pos, negsuc, is_neg, ltb, leb, ◌==◌, if◌then◌else◌,
}
use pyuring.CApi.{ManyCall}
use pyuring.Errno.{eio}
use pyuring.Pipeline.State.{taken, Entry, entry, op_write, File, pwrite, ud_op, ud_slot, word}
use pyuring.Pipeline.Newfile.{Done, write_answer, write_moved}

-- An entry of the ring with the file that it writes to.
pub record FileEntry : Type 0 where
  pub file : ℕ
  pub block : Entry

pub record Many : Type 0 where
  pub file_off : ℕ → ℕ
  pub file_done : ℕ → Bool
  pub done_files : ℕ
  pub rr : ℕ
  pub free_slots : List ℕ
  pub inflight : ℕ
  pub written : ℕ
  pub ring : List FileEntry
  pub files : ℕ → File

-- `uint64_t per_file_bytes`
unfoldable pub per_file_bytes : ManyCall → ℕ
per_file_bytes call = call.mb_per_file * 1048576

-- `a[i] = v`
unfoldable pub assign {ℓ} : {A : Type ℓ} → (ℕ → A) → ℕ → A → ℕ → A
assign a i v j = if i == j then v else a j

-- 'a' + (i + k) % 26
unfoldable pub small_pattern : ℕ → ℕ → ℕ
small_pattern i k = 97 + (i + k) % 26

abbrev pub finish_file : ℕ → Many → Many
finish_file f t = record t { file_done = assign t.file_done f true; done_files = suc t.done_files }

abbrev pub many_want : ManyCall → ℕ → ℕ
many_want call off =
    let remain = per_file_bytes call - off in
    if ltb remain call.block_size then remain else call.block_size

-- `file_off[idx] = off + want`, and the end of the file when that is all.
unfoldable pub advance : ManyCall → ℕ → Many → Many
advance call f t =
    let moved = record t {
      file_off = assign t.file_off f (t.file_off f + many_want call (t.file_off f));
    } in
    if leb (per_file_bytes call) (t.file_off f + many_want call (t.file_off f))
    then finish_file f moved
    else moved

-- The next file in turn that has bytes to write, its offset and the length of the block.
unfoldable pub pick : ManyCall → ℕ → Many → Option (ℕ × ℕ × ℕ) × Many
pick call zero t = (none, t)
pick call (suc tries) t =
    let f = t.rr % call.nfiles in
    let turned = record t { rr = suc t.rr % word } in
    let next = pick call tries turned in
    let finished = pick call tries (finish_file f turned) in
    if t.file_done f
    then next
    else if leb (per_file_bytes call) (t.file_off f)
    then finished
    else (some (f, t.file_off f, many_want call (t.file_off f)), advance call f turned)

abbrev pub put_write : ℕ → List ℕ → ℕ × ℕ × ℕ → Many → Many
put_write slot slots (f, off, len) t = record t {
  free_slots = slots;
  ring = t.ring ++ record { file = f; block = entry op_write slot off len } ∷ [];
  inflight = suc t.inflight;
}

-- One block: with a slot free, a file to write and an entry, it is queued and the loop goes on. Without
-- an entry the slot goes back on the stack, and the offset of the file stays advanced.
unfoldable pub queue_block :
    (ℕ → Many → ℕ × Many) → ℕ → List ℕ → Option (ℕ × ℕ × ℕ) × Many → Many → ℕ × Many
queue_block k sqes [] r t = (0, t)
queue_block k sqes (slot ∷ slots) (none, u) t = (0, u)
queue_block k zero (slot ∷ slots) (some b, u) t = (0, u)
queue_block k (suc sqes) (slot ∷ slots) (some b, u) t =
    let r = k sqes (put_write slot slots b u) in (suc r.0, r.1)

-- The inner loop, and how many blocks it has queued; `sqes` is how many entries liburing gives. Fuel
-- `qd` is enough, since each block takes a slot.
unfoldable pub enqueue : ManyCall → ℕ → ℕ → Many → ℕ × Many
enqueue call zero sqes t = (0, t)
enqueue call (suc fuel) sqes t =
    let queued = queue_block (enqueue call fuel) sqes t.free_slots (pick call call.nfiles t) t in
    if ltb t.done_files call.nfiles then queued else (0, t)

-- What liburing does in one turn of the loop. A batch has a completion at least: when the ring shows
-- none, the function waits for one.
pub record ManyTurn : Type 0 where
  pub sqes : ℕ
  pub submit : ℤ
  pub wait : ℤ
  pub first : Done
  pub others : List Done

pub data ManyStage : Type 0 where
  goes_on : Many → ManyStage
  breaks : Many → ManyStage
  goes_out : ℤ → Many → ManyStage
  hangs : ManyStage

unfoldable pub many_then : ManyStage → (Many → ManyStage) → ManyStage
many_then (goes_on t) k = k t
many_then (breaks t) k = breaks t
many_then (goes_out r t) k = goes_out r t
many_then hangs k = hangs

-- The program's part of a completion.
unfoldable pub settle_block : ManyCall → ℕ → ℤ → Many → ManyStage
settle_block call ud (negsuc e) t =
    if not (ud_op ud == 1) || leb call.qd (ud_slot ud)
    then goes_out (negsuc (eio - 1)) t
    else goes_out (negsuc e) t
settle_block call ud (pos n) t =
    if not (ud_op ud == 1) || leb call.qd (ud_slot ud)
    then goes_out (negsuc (eio - 1)) t
    else goes_on (record t {
      written = t.written + n;
      inflight = t.inflight - 1;
      free_slots = ud_slot ud ∷ t.free_slots;
    })

-- The kernel's part.
abbrev pub store_block : Done → FileEntry → List FileEntry → Many → Many
store_block d e rest t = record t {
  ring = rest;
  files =
      assign t.files e.file
        (pwrite (small_pattern e.block.slot) e.block.off (write_moved d e.block) (t.files e.file));
}

unfoldable pub reap_block : ManyCall → Done → List FileEntry → Many → ManyStage
reap_block call d [] t = hangs
reap_block call d (e ∷ es) t =
    let r = taken d.which e es in
    settle_block call r.0.block.user_data (write_answer d r.0.block) (store_block d r.0 r.1 t)

-- The completions of the batch, as far as entries are in flight.
unfoldable pub reap_blocks : ManyCall → List Done → Many → ManyStage
reap_blocks call [] t = goes_on t
reap_blocks call (d ∷ ds) t =
    if t.inflight == 0
    then goes_on t
    else many_then (reap_block call d t.ring t) (reap_blocks call ds)

unfoldable pub reap_batch : ManyCall → ManyTurn → Many → ManyStage
reap_batch call turn t =
    if t.inflight == 0
    then breaks t
    else if is_neg turn.wait
    then goes_out turn.wait t
    else reap_blocks call (turn.first ∷ turn.others) t

-- One turn of the loop.
unfoldable pub many_turn : ManyCall → ManyTurn → Many → ManyStage
many_turn call turn t =
    let r = enqueue call call.qd turn.sqes t in
    if not (r.0 == 0) && is_neg turn.submit
    then goes_out turn.submit r.1
    else reap_batch call turn r.1

pub data ManyRun : Type 0 where
  over : Many → ManyRun
  dropped_out : ℤ → Many → ManyRun
  endless : ManyRun

unfoldable pub many_resume : ManyStage → (Many → ManyRun) → ManyRun
many_resume (goes_on t) k = k t
many_resume (breaks t) k = over t
many_resume (goes_out r t) k = dropped_out r t
many_resume hangs k = endless

-- `uint64_t total_bytes`
abbrev pub total_bytes : ManyCall → ℕ
total_bytes call = (per_file_bytes call * call.nfiles) % 18446744073709551616

-- `while (written < total_bytes || inflight)`
abbrev pub unfinished_files : ManyCall → Many → Bool
unfinished_files call t = ltb t.written (total_bytes call) || not (t.inflight == 0)

unfoldable pub many_loop : ManyCall → List ManyTurn → Many → ManyRun
many_loop call [] t = if unfinished_files call t then endless else over t
many_loop call (turn ∷ turns) t =
    if unfinished_files call t
    then many_resume (many_turn call turn t) (many_loop call turns)
    else over t
