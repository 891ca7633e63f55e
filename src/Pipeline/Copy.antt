-- ===== src/Pipeline/Copy.antt =====
-- csrc/uring_wrap.c, `uring_copy_path_dynamic`: the reads that prime the ring and the loop over
-- completions, then the whole function with its error paths.
use pyuring.Prelude.{
  min, ℕ, zero, suc, ◌+◌, ◌-◌, Bool, true, false, ◌||◌, not, none, some, List, [], ◌∷◌, ◌++◌, ℤ,
  pos, negsuc, is_neg, ltb, leb, ◌==◌, if◌then◌else◌,
}
use pyuring.CApi.{CopyDynamicCall}
use pyuring.Errno.{eio, eagain}
use pyuring.Pipeline.State.{
  CopySlot, Opcode, Entry, entry, op_read, op_write, File, Turn, put, pread, pwrite, answer, moved,
  taken, want_at, ud_op, ud_slot,
}

-- The arguments and what the function has found out before its loop; the bytes of the source.
pub record Job : Type 0 where
  pub call : CopyDynamicCall
  pub file_size : ℕ
  pub max_buffer_size : ℕ
  pub content : ℕ → ℕ

-- The variables of the loop, the entries in the ring and the destination. `copied` adds results that
-- are not negative. The last `unseen` of the entries have not been submitted yet.
pub record Copy : Type 0 where
  pub slots : ℕ → CopySlot
  pub next_off : ℕ
  pub inflight : ℕ
  pub copied : ℕ
  pub pending : List Entry
  pub unseen : ℕ
  pub dst : File

-- Where control goes: on, or to the label `out` with `ret`. `blocked` is a wait while
-- no entry is with the kernel: `io_uring_wait_cqe` submits nothing.
pub data Trip : Type 0 where
  again : Copy → Trip
  goto_out : ℤ → Copy → Trip
  blocked : Trip

unfoldable pub want : Job → ℕ → ℕ
want job off = want_at job.call.size_cb job.file_size job.call.block_size job.max_buffer_size off

-- `ret = io_uring_submit(&ring)` after one more entry; `left_queued` entries stay in the queue.
unfoldable pub submitted : ℕ → ℤ → Copy → Trip
submitted left_queued (pos n) t = again (record t { unseen = min left_queued (suc t.unseen) })
submitted left_queued (negsuc e) t = goto_out (negsuc e) t

-- A read of the next block into a slot: `off` and `len` are set before the entry is asked for.
abbrev pub claim_slot : Job → ℕ → Copy → Copy
claim_slot job slot t = record t {
  slots = put t.slots slot (record (t.slots slot) { off = t.next_off; len = want job t.next_off });
}

abbrev pub queue_read : Job → ℕ → Copy → Copy
queue_read job slot t = record t {
  pending = t.pending ++ entry op_read slot t.next_off (want job t.next_off) ∷ [];
  inflight = suc t.inflight;
  next_off = t.next_off + want job t.next_off;
}

abbrev pub retire : ℕ → Copy → Copy
retire slot t = record t { slots = put t.slots slot (record (t.slots slot) { active = false }) }

-- A completed read of n bytes: the write of the same n bytes, or the end of the slot at 0.
unfoldable pub read_done : Turn → ℕ → ℕ → Copy → Trip
read_done turn slot zero t = again (retire slot t)
read_done turn slot (suc n) t =
    if turn.sqe
    then submitted turn.left_queued turn.submit (record t {
      pending = t.pending ++ entry op_write slot (t.slots slot).off (suc n) ∷ [];
      inflight = suc t.inflight;
    })
    else goto_out (negsuc (eagain - 1)) t

-- `progress_cb` asks to stop.
abbrev pub cancels : Job → ℕ → Bool
cancels job done = elim job.call.progress_cb [
  | none ↦ false
  | some cb ↦ not (cb done job.file_size == 0)
]

abbrev pub ecanceled : ℕ
ecanceled = 125

-- The part after the progress callback: the next read for this slot, if anything remains.
unfoldable pub refill : Job → Turn → ℕ → Copy → Trip
refill job turn slot t =
    if ltb t.next_off job.file_size
    then if turn.sqe
      then submitted turn.left_queued turn.submit (queue_read job slot (claim_slot job slot t))
      else goto_out (negsuc (eagain - 1)) (claim_slot job slot t)
    else again (retire slot t)

unfoldable pub write_done : Job → Turn → ℕ → ℕ → Copy → Trip
write_done job turn slot n t =
    let counted = record t { copied = t.copied + n } in
    if cancels job counted.copied
    then goto_out (negsuc (ecanceled - 1)) counted
    else refill job turn slot counted

-- The program's part of a turn: what it does with a completion.
unfoldable pub dispatch : Job → Turn → ℕ → ℤ → Copy → Trip
dispatch job turn ud (negsuc e) t =
    if leb job.call.qd (ud_slot ud) || not (t.slots (ud_slot ud)).active
    then goto_out (negsuc (eio - 1)) t
    else goto_out (negsuc e) t
dispatch job turn ud (pos n) t =
    if leb job.call.qd (ud_slot ud) || not (t.slots (ud_slot ud)).active
    then goto_out (negsuc (eio - 1)) t
    else if ud_op ud == 0
    then read_done turn (ud_slot ud) n t
    else write_done job turn (ud_slot ud) n t

-- The kernel's part: the bytes that the entry moves.
unfoldable pub perform : Opcode → (ℕ → ℕ) → Entry → ℕ → Copy → Copy
perform op_read content e n t = record t {
  slots =
      put t.slots e.slot
        (record (t.slots e.slot) { buf = pread content e.off n (t.slots e.slot).buf });
}
perform op_write content e n t = record t { dst = pwrite (t.slots e.slot).buf e.off n t.dst }

-- A completion is taken: the kernel has moved the bytes, and the loop counts it out.
abbrev pub reap : Job → Turn → Entry → List Entry → Copy → Copy
reap job turn e rest t = record (perform e.opcode job.content e (moved turn e) t) {
  pending = rest;
  inflight = t.inflight - 1;
}

unfoldable pub complete : Job → Turn → Entry × List Entry → Copy → Trip
complete job turn (e, rest) t =
    dispatch job turn e.user_data (answer turn e) (reap job turn e rest t)

-- The entry that completes is one that has been submitted.
abbrev pub seen_index : Turn → Copy → ℕ
seen_index turn t = min turn.which (t.inflight - suc t.unseen)

unfoldable pub serve : Job → Turn → List Entry → Copy → Trip
serve job turn [] t = blocked
serve job turn (e ∷ rest) t =
    if leb t.inflight t.unseen
    then blocked
    else complete job turn (taken (seen_index turn t) e rest) t

-- One turn of `while (inflight)`.
unfoldable pub trip : Job → Turn → Copy → Trip
trip job turn t = if is_neg turn.wait then goto_out turn.wait t else serve job turn t.pending t

-- The loop comes to its end, leaves for `out`, or has no further turn.
pub data Run : Type 0 where
  finished : Copy → Run
  left : ℤ → Copy → Run
  waiting : Run

unfoldable pub continue : Trip → (Copy → Run) → Run
continue (again t) k = k t
continue (goto_out r t) k = left r t
continue blocked k = waiting

unfoldable pub loop : Job → List Turn → Copy → Run
loop job [] t = if t.inflight == 0 then finished t else waiting
loop job (turn ∷ turns) t =
    if t.inflight == 0 then finished t else continue (trip job turn t) (loop job turns)

-- The loop that primes the ring: k slots are left, from slot i on.
abbrev pub open_slot : Job → ℕ → Copy → Copy
open_slot job i t = record t {
  slots =
      put t.slots i
        (record (t.slots i) { off = t.next_off; len = want job t.next_off; active = true });
}

unfoldable pub prime : Job → (ℕ → Bool) → ℕ → ℕ → Copy → Trip
prime job sqe zero i t = again t
prime job sqe (suc k) i t =
    let rest = prime job sqe k (suc i) (queue_read job i (open_slot job i t)) in
    if ltb t.next_off job.file_size
    then if sqe i then rest else goto_out (negsuc (eagain - 1)) (open_slot job i t)
    else again t

unfoldable pub launched : Job → ℕ → ℤ → List Turn → Trip → Run
launched job left_queued submit turns (again t) =
    if is_neg submit
    then left submit t
    else loop job turns (record t { unseen = min left_queued t.inflight })
launched job left_queued submit turns (goto_out r t) = left r t
launched job left_queued submit turns blocked = waiting
