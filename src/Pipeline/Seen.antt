-- ===== src/Pipeline/Seen.antt =====
-- csrc/uring_wrap.c, the loop of `uring_copy_path_dynamic`: while every submission takes what is queued,
-- the wait of a turn is never for nothing.
use pyuring.Prelude.{
  false, not, ◌||◌, leb, ltb, ℕ, zero, suc, ◌+◌, ◌<◌, ◌≡◌, refl, inl, inr, List, [], ◌∷◌, length,
  arith, Bool-cases, ◌==◌, ℤ, pos, negsuc, is_neg,
}
use pyuring.Pipeline.State.{ud_op, ud_slot, Turn, Entry, Opcode, op_read, op_write}
use pyuring.Pipeline.Copy.{
  Job, Copy, Trip, again, goto_out, blocked, trip, serve, complete, dispatch, read_done, write_done,
  refill, submitted, cancels, perform,
}

-- A submission takes all entries that are queued.
abbrev pub Flushes : Turn → Type 0
Flushes turn = turn.left_queued ≡ 0

abbrev pub Seen : Trip → Type 0
Seen (again t) = t.unseen ≡ 0
Seen (goto_out r t) = Unit
Seen blocked = ⊥

submitted-Seen : (k : ℕ) (r : ℤ) (t : Copy) → k ≡ 0 → Seen (submitted k r t)
unfolding submitted
submitted-Seen k (pos n) t z = omega (arith, z)
submitted-Seen k (negsuc e) t z = tt

perform-unseen :
    (o : Opcode) (content : ℕ → ℕ) (e : Entry) (n : ℕ) (t : Copy)
    → (perform o content e n t).unseen ≡ t.unseen
unfolding perform
perform-unseen op_read content e n t = refl
perform-unseen op_write content e n t = refl

module _ (turn : Turn) (flushes : Flushes turn) where
  read_done-Seen : (slot k : ℕ) (t : Copy) → t.unseen ≡ 0 → Seen (read_done turn slot k t)
  unfolding read_done
  read_done-Seen slot zero t h = h
  read_done-Seen slot (suc k) t h = elim (Bool-cases turn.sqe) [
    | inl q ↦ simp q (submitted-Seen turn.left_queued turn.submit _ flushes)
    | inr q ↦ simp q tt
  ]

  write_done-Seen :
      (slot k : ℕ) (job : Job) (t : Copy) → t.unseen ≡ 0 → Seen (write_done job turn slot k t)
  unfolding write_done refill
  write_done-Seen slot k job t h = elim (Bool-cases (cancels job (t.copied + k))) [
    | inl c ↦ simp c tt
    | inr c ↦ elim (Bool-cases (ltb t.next_off job.file_size)) [
      | inr l ↦ simp (c, l) h
      | inl l ↦ elim (Bool-cases turn.sqe) [
        | inl q ↦ simp (c, l, q) (submitted-Seen turn.left_queued turn.submit _ flushes)
        | inr q ↦ simp (c, l, q) tt
      ]
    ]
  ]

  dispatch-Seen :
      (ud : ℕ) (job : Job) (res : ℤ) (t : Copy) → t.unseen ≡ 0 → Seen (dispatch job turn ud res t)
  unfolding dispatch
  dispatch-Seen ud job (negsuc e) t h =
      elim (Bool-cases (leb job.call.qd (ud_slot ud) || not (t.slots (ud_slot ud)).active)) [
        | inl b ↦ simp b tt
        | inr b ↦ simp b tt
      ]
  dispatch-Seen ud job (pos k) t h =
      elim (Bool-cases (leb job.call.qd (ud_slot ud) || not (t.slots (ud_slot ud)).active)) [
        | inl b ↦ simp b tt
        | inr b ↦ elim (Bool-cases (ud_op ud == 0)) [
          | inl o ↦ simp (b, o) (read_done-Seen (ud_slot ud) k t h)
          | inr o ↦ simp (b, o) (write_done-Seen (ud_slot ud) k job t h)
        ]
      ]

  complete-Seen :
      (job : Job) (p : Entry × List Entry) (t : Copy) → t.unseen ≡ 0 → Seen (complete job turn p t)
  unfolding complete
  complete-Seen job (e, rest) t h =
      dispatch-Seen _ job _ _ (omega (arith, h, perform-unseen e.opcode job.content e _ t))

  some_seen : (n k : ℕ) → 0 < n → k ≡ 0 → leb n k ≡ false
  some_seen n k h z = ground arith

  serve-Seen :
      (job : Job) (es : List Entry) (t : Copy)
      → 0 < length es
      → 0 < t.inflight
      → t.unseen ≡ 0
      → Seen (serve job turn es t)
  unfolding serve
  serve-Seen job [] t l i h = absurd (omega (arith, l))
  serve-Seen job (e ∷ es) t l i h =
      simp (some_seen t.inflight t.unseen i h) (complete-Seen job _ t h)

  pub trip-Seen :
      (job : Job) (t : Copy)
      → 0 < length t.pending
      → 0 < t.inflight
      → t.unseen ≡ 0
      → Seen (trip job turn t)
  unfolding trip
  trip-Seen job t l i h = elim (Bool-cases (is_neg turn.wait)) [
    | inl b ↦ simp b tt
    | inr b ↦ simp b (serve-Seen job t.pending t l i h)
  ]
