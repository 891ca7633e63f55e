-- ===== src/Pipeline/Newfile.antt =====
-- csrc/uring_wrap.c, `uring_write_newfile_dynamic` and `uring_write_newfile`. The `off` and `len` of a
-- slot are set and never read, so that a slot is its number; `inflight` goes down with each completion
-- and not after each batch, which nothing sees.
use pyuring.Prelude.{
  ℕ, zero, suc, ◌+◌, ◌-◌, ◌*◌, ◌/◌, ◌%◌, Bool, false, ◌||◌, ◌&&◌, not, none, some, List, [], ◌∷◌,
  ◌++◌, ℤ, pos, negsuc, is_neg, ltb, leb, ◌==◌, if◌then◌else◌,
}
use pyuring.CApi.{WriteDynamicCall, WriteCall}
use pyuring.Errno.{eio, einval, enomem}
use pyuring.Pipeline.State.{
  Entry, entry, op_write, File, pwrite, taken, want_at, max_buffer, ud_op, ud_slot, empty_file,
}
use pyuring.Pipeline.Copy.{ecanceled}
use pyuring.Pipeline.Path.{all_aligned}

-- The arguments, and what the function works out from them.
pub record WriteJob : Type 0 where
  pub call : WriteDynamicCall
  pub total_bytes : ℕ
  pub max_buffer_size : ℕ

pub record Writing : Type 0 where
  pub next_off : ℕ
  pub inflight : ℕ
  pub pending : ℕ
  pub written : ℕ
  pub ring : List Entry
  pub dst : File

-- A completion: which entry, its error number or 0, and how many bytes fewer than asked it writes.
pub record Done : Type 0 where
  pub which : ℕ
  pub errno : ℕ
  pub lack : ℕ

-- What liburing does in one turn of the outer loop: how many entries it gives, how the submission and
-- the wait end, and the completions that the batches hold until one of them is empty.
pub record WriteTurn : Type 0 where
  pub sqes : ℕ
  pub submit : ℤ
  pub wait : ℤ
  pub completed : List Done

pub data Stage : Type 0 where
  go_on : Writing → Stage
  give_up : ℤ → Writing → Stage
  stuck : Stage

unfoldable pub and_next : Stage → (Writing → Stage) → Stage
and_next (go_on t) k = k t
and_next (give_up r t) k = give_up r t
and_next stuck k = stuck

-- The pattern that fills the buffer of slot i: 'A' + (i + k) % 26.
unfoldable pub pattern : ℕ → ℕ → ℕ
pattern i k = 65 + (i + k) % 26

unfoldable pub write_want : WriteJob → ℕ → ℕ
write_want job off =
    want_at job.call.size_cb job.total_bytes job.call.block_size job.max_buffer_size off

abbrev pub slot_of : WriteJob → ℕ → ℕ
slot_of job off = (off / job.call.block_size) % job.call.qd

abbrev pub queue_write : WriteJob → Writing → Writing
queue_write job t = record t {
  ring =
      t.ring ++ entry op_write (slot_of job t.next_off) t.next_off (write_want job t.next_off) ∷ [];
  pending = suc t.pending;
  next_off = t.next_off + write_want job t.next_off;
}

-- The inner loop that queues writes. Fuel `qd` is enough, since each of them takes a place.
unfoldable pub fill : WriteJob → ℕ → ℕ → Writing → Writing
fill job zero sqes t = t
fill job (suc fuel) zero t = t
fill job (suc fuel) (suc sqes) t =
    let rest = fill job fuel sqes (queue_write job t) in
    if ltb t.next_off job.total_bytes && ltb (t.inflight + t.pending) job.call.qd then rest else t

-- `if (pending)`: the submission.
unfoldable pub submit_pending : ℤ → Writing → Stage
submit_pending (negsuc e) t = if t.pending == 0 then go_on t else give_up (negsuc e) t
submit_pending (pos n) t = go_on (record t { inflight = t.inflight + t.pending; pending = 0 })

abbrev pub write_cancels : WriteJob → ℕ → Bool
write_cancels job done = elim job.call.progress_cb [
  | none ↦ false
  | some cb ↦ not (cb done job.total_bytes == 0)
]

unfoldable pub write_answer : Done → Entry → ℤ
write_answer d e = if d.errno == 0 then pos (e.len - d.lack) else negsuc (d.errno - 1)

unfoldable pub write_moved : Done → Entry → ℕ
write_moved d e = if d.errno == 0 then e.len - d.lack else 0

-- The program's part of a completion.
unfoldable pub account : WriteJob → ℕ → ℤ → Writing → Stage
account job ud (negsuc e) t =
    if not (ud_op ud == 1) || leb job.call.qd (ud_slot ud)
    then give_up (negsuc (eio - 1)) t
    else give_up (negsuc e) t
account job ud (pos n) t =
    if not (ud_op ud == 1) || leb job.call.qd (ud_slot ud)
    then give_up (negsuc (eio - 1)) t
    else if write_cancels job (t.written + n)
    then give_up (negsuc (ecanceled - 1)) (record t { written = t.written + n })
    else go_on (record t { written = t.written + n; inflight = t.inflight - 1 })

-- The kernel's part: the entry leaves the ring, and its bytes are in the file.
abbrev pub wrote : Done → Entry → List Entry → Writing → Writing
wrote d e rest t = record t {
  ring = rest;
  dst = pwrite (pattern e.slot) e.off (write_moved d e) t.dst;
}

unfoldable pub reap_from : WriteJob → Done → List Entry → Writing → Stage
reap_from job d [] t = stuck
reap_from job d (e ∷ es) t =
    let r = taken d.which e es in account job r.0.user_data (write_answer d r.0) (wrote d r.0 r.1 t)

-- `while (inflight)`: the completions at hand, until a batch holds none.
unfoldable pub reap_all : WriteJob → List Done → Writing → Stage
reap_all job [] t = go_on t
reap_all job (d ∷ ds) t =
    if t.inflight == 0 then go_on t else and_next (reap_from job d t.ring t) (reap_all job ds)

unfoldable pub wait_and_reap : WriteJob → WriteTurn → Writing → Stage
wait_and_reap job turn t =
    if t.inflight == 0
    then go_on t
    else if is_neg turn.wait
    then give_up turn.wait t
    else reap_all job turn.completed t

-- One turn of the outer loop.
unfoldable pub write_turn : WriteJob → WriteTurn → Writing → Stage
write_turn job turn t =
    and_next (submit_pending turn.submit (fill job job.call.qd turn.sqes t))
      (wait_and_reap job turn)

pub data WriteRun : Type 0 where
  all_written : Writing → WriteRun
  gave_up : ℤ → Writing → WriteRun
  unfinished : WriteRun

unfoldable pub resume : Stage → (Writing → WriteRun) → WriteRun
resume (go_on t) k = k t
resume (give_up r t) k = gave_up r t
resume stuck k = unfinished

-- `while (next_off < total_bytes || inflight || pending)`.
abbrev pub at_work : WriteJob → Writing → Bool
at_work job t = ltb t.next_off job.total_bytes || not (t.inflight == 0) || not (t.pending == 0)

unfoldable pub write_loop : WriteJob → List WriteTurn → Writing → WriteRun
write_loop job [] t = if at_work job t then unfinished else all_written t
write_loop job (turn ∷ turns) t =
    if at_work job t then resume (write_turn job turn t) (write_loop job turns) else all_written t

-- What the calls before the loop and after it answer.
pub record WriteWorld : Type 0 where
  pub old : File
  pub open_dst : ℕ
  pub queue_init : ℤ
  pub calloc : Bool
  pub memalign : ℕ → Bool
  pub turns : List WriteTurn
  pub fsync : ℕ

-- The destination when the function returns; `unreturned` is a call that has not returned.
pub data Written : Type 0 where
  returns : ℤ → File → Written
  unreturned : Written

-- `(uint64_t)total_mb * 1024u * 1024u`, or one block when that is more.
unfoldable pub total_of : WriteDynamicCall → ℕ
total_of call =
    let bytes = call.total_mb * 1048576 in
    if ltb bytes call.block_size then call.block_size else bytes

abbrev pub write_job : WriteDynamicCall → WriteJob
write_job call = record {
  call = call;
  total_bytes = total_of call;
  max_buffer_size = max_buffer call.size_cb (total_of call) call.block_size;
}

abbrev pub blank : Writing
blank = record { next_off = 0; inflight = 0; pending = 0; written = 0; ring = []; dst = empty_file }

unfoldable pub write_out : WriteWorld → WriteDynamicCall → WriteRun → Written
write_out w call (all_written t) =
    returns
      (if not (call.fsync == 0) && not (w.fsync == 0) then negsuc (w.fsync - 1) else pos t.written)
      t.dst
write_out w call (gave_up r t) = returns (if is_neg r then r else pos t.written) t.dst
write_out w call unfinished = unreturned

unfoldable pub uring_write_newfile_dynamic : WriteWorld → WriteDynamicCall → Written
uring_write_newfile_dynamic w call =
    if call.total_mb == 0 || call.block_size == 0 || call.qd == 0
    then returns (negsuc (einval - 1)) w.old
    else if not (w.open_dst == 0)
    then returns (negsuc (w.open_dst - 1)) w.old
    else if is_neg w.queue_init
    then returns w.queue_init empty_file
    else if not w.calloc
    then returns (negsuc (enomem - 1)) empty_file
    else if not (all_aligned w.memalign call.qd)
    then returns (negsuc (enomem - 1)) empty_file
    else write_out w call (write_loop (write_job call) w.turns blank)

unfoldable pub uring_write_newfile : WriteWorld → WriteCall → Written
uring_write_newfile w call = uring_write_newfile_dynamic w (record {
  dst = call.dst;
  total_mb = call.total_mb;
  block_size = call.block_size;
  qd = call.qd;
  fsync = call.fsync;
  dsync = call.dsync;
  size_cb = none;
  progress_cb = none;
})
