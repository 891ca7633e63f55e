-- ===== src/Pipeline/Progress.antt =====
-- csrc/uring_wrap.c, the loop of `uring_copy_path_dynamic`: whole turns, the reads that prime the ring,
-- and how the loop ends on any schedule of turns.
use pyuring.Prelude.{
  leb, ◌∙◌, sym, ap, ℕ, suc, ◌+◌, ◌-◌, ◌<◌, ◌≤◌, ◌≡◌, refl, inl, inr, List, [], ◌∷◌, length, arith,
  Bool-cases, ◌==◌, is_neg,
}
use pyuring.Pipeline.State.{Entry, Opcode, op_read, op_write, Turn, moved, answer, taken}
use pyuring.Pipeline.Copy.{
  seen_index, Job, Copy, Trip, again, goto_out, blocked, perform, trip, serve, complete,
}
use mathlib.Core.Path.{sym, subst}
use pyuring.Pipeline.Invariant.{After-write, After-read, Live, After, Inv, Sane}
use pyuring.Pipeline.Effort.{effort-taken, Correct, wait_failed, weight, turns_left, effort, Good}
use pyuring.Pipeline.Turns.{dispatch-neg, dispatch-pos, Opcode-cases}
use pyuring.Pipeline.Blocks.{
  length-taken, total-taken, All-taken_inv, Distinct-taken, All-taken, Out, total, Distinct, Apart,
  All,
}

perform-next :
    (o : Opcode) (content : ℕ → ℕ) (e : Entry) (n : ℕ) (t : Copy)
    → (perform o content e n t).next_off ≡ t.next_off
unfolding perform
perform-next op_read content e n t = refl
perform-next op_write content e n t = refl

Good-bound :
    (job : Job) (lost : ℕ) (turn : Turn) (bound limit : ℕ) (r : Trip)
    → bound ≤ limit
    → Good job lost turn bound r
    → Good job lost turn limit r
Good-bound job lost turn bound limit (again t) h g = (g.0, omega (arith, g.1))
Good-bound job lost turn bound limit (goto_out r t) h g = g
Good-bound job lost turn bound limit blocked h g = g

pub Inv-Correct : (job : Job) (lost : ℕ) (t : Copy) → Inv job lost t → Correct job t
Inv-Correct job lost t inv = record {
  clean = inv.clean;
  extent = omega (arith, inv.extent, inv.within);
  count = omega (arith, inv.sum, inv.within);
}

module _ (job : Job) (sane : Sane job) (lost : ℕ) (turn : Turn) where
  -- What a turn makes of the bytes lost so far.
  abbrev Loses : ℕ → Type 0
  Loses after = (turn.lack ≡ 0 → after ≡ lost) × (0 < turn.lack → lost < after)

  abbrev Turned : ℕ → Trip → Type 0
  Turned bound r = (after : ℕ) × (Good job after turn bound r × Loses after)

  perform-After :
      (n : ℕ) (t : Copy) (e : Entry) (rest : List Entry)
      → Inv job lost t
      → Live job t.slots t.next_off e
      → All (Live job t.slots t.next_off) rest
      → All (Apart e) rest
      → Distinct rest
      → total t.pending ≡ e.len + total rest
      → t.inflight ≡ suc (length rest)
      → n ≤ e.len
      → ((i : ℕ) → Out i e → All (Out i) rest → All (Out i) t.pending)
      → After job lost n e (record (perform e.opcode job.content e n t) {
        pending = rest;
        inflight = t.inflight - 1;
      })
  perform-After n t e rest inv live lives apart distinct sum count le outs =
      elim (Opcode-cases e.opcode) [
        | inl w ↦
            simp w
              (After-read job lost n t e rest inv live lives apart distinct sum count le outs w)
        | inr w ↦
            simp w
              (After-write job lost n t e rest inv live lives apart distinct sum count le outs w)
      ]

  complete-Turned :
      (t : Copy) (e : Entry) (rest : List Entry)
      → ((n : ℕ)
          → n ≤ e.len
          → After job lost n e (record (perform e.opcode job.content e n t) {
            pending = rest;
            inflight = t.inflight - 1;
          }))
      → effort t.pending ≡ weight e.opcode + effort rest
      → 0 < e.len
      → Turned (turns_left job t) (complete job turn (e, rest) t)
  unfolding complete answer moved
  complete-Turned t e rest after sum some_len = elim (Bool-cases (turn.errno == 0)) [
    | inl q ↦ simp q (
      lost + (e.len - (e.len - turn.lack)),
      (
        Good-bound job _ turn _ _ _
            (omega (arith, sum, perform-next e.opcode job.content e (e.len - turn.lack) t))
            (dispatch-pos job lost (e.len - turn.lack) turn e _
              (after (e.len - turn.lack) (omega arith)) sane),
        ((λ z. omega (arith, z)), (λ z. omega (arith, z, some_len))),
      ),
    )
    | inr q ↦ simp q (
      lost + (e.len - (e.len - turn.lack)),
      (
        dispatch-neg job lost 0 turn e _ (after 0 (omega arith)) sane _ (turns_left job t)
            (ground arith),
        ((λ z. omega (arith, z)), (λ z. omega (arith, z, some_len))),
      ),
    )
  ]

  serve-Turned :
      (t : Copy) (es : List Entry)
      → es ≡ t.pending
      → Inv job lost t
      → 0 < t.inflight
      → Turned (turns_left job t) (serve job turn es t)
  unfolding serve
  serve-Turned t [] q inv h = absurd (omega (arith, h, inv.count, ap length q))
  serve-Turned t (e ∷ es) q inv h = elim (Bool-cases (leb t.inflight t.unseen)) [
    | inl s ↦ simp s (lost + turn.lack, (tt, ((λ z. omega (arith, z)), (λ z. omega (arith, z)))))
    | inr s ↦ simp s (
        complete-Turned t (taken (seen_index turn t) e es).0 (taken (seen_index turn t) e es).1
          (λ n le.
            perform-After n t (taken (seen_index turn t) e es).0 (taken (seen_index turn t) e es).1
              inv lives.0 lives.1 apart.0 apart.1
              (sym (ap total q) ∙ total-taken (seen_index turn t) e es)
              (omega (arith, inv.count, ap length q, length-taken (seen_index turn t) e es)) le
              (λ i o a. subst (All (Out i)) q (All-taken_inv (Out i) (seen_index turn t) e es o a)))
          (sym (ap effort q) ∙ effort-taken (seen_index turn t) e es) lives.0.seated.full)
  ]
    where
      lives :
          Live job t.slots t.next_off (taken (seen_index turn t) e es).0
          × All (Live job t.slots t.next_off) (taken (seen_index turn t) e es).1
      lives =
          All-taken (Live job t.slots t.next_off) (seen_index turn t) e es
            (subst (All (Live job t.slots t.next_off)) (sym q) inv.entries)

      apart :
          All (Apart (taken (seen_index turn t) e es).0) (taken (seen_index turn t) e es).1
          × Distinct (taken (seen_index turn t) e es).1
      apart = Distinct-taken (seen_index turn t) e es (subst Distinct (sym q) inv.distinct)

  pub trip-Turned :
      (t : Copy) → Inv job lost t → 0 < t.inflight → Turned (turns_left job t) (trip job turn t)
  unfolding trip
  trip-Turned t inv h = elim (Bool-cases (is_neg turn.wait)) [
    | inr q ↦ simp q (serve-Turned t t.pending refl inv h)
    | inl q ↦ simp q (
      lost + turn.lack,
      (
        (refl, wait_failed refl, Inv-Correct job lost t inv),
        ((λ z. omega (arith, z)), (λ z. omega (arith, z))),
      ),
    )
  ]
