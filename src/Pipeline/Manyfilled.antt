-- ===== src/Pipeline/Manyfilled.antt =====
-- csrc/uring_wrap.c, `uring_write_manyfiles`: the end of its loop, and what a caller can rely on.
use pyuring.Prelude.{
  not, ◌&&◌, Bool, ℕ, zero, suc, ◌<◌, ◌≤◌, ◌≡◌, true, inl, inr, List, [], ◌∷◌, length, arith,
  Bool-cases, ◌==◌, is_neg,
}
use pyuring.CApi.{ManyCall}
use pyuring.Pipeline.State.{word}
use pyuring.Pipeline.Manyfiles
use pyuring.Pipeline.Manyfiles.{
  goes_out, enqueue, breaks, goes_on, unfinished_files, many_loop, many_resume, ManyStage,
  reap_batch, dropped_out, Many, over, ManyTurn, ManyRun, many_turn,
}
use pyuring.Pipeline.Spread.{left_to_do, Spread}
use Manyfiles.{hangs, endless}
use pyuring.Pipeline.Reaping.{reap_batch-Reaps, Reaps}
use pyuring.Pipeline.Rounds.{enqueue-Queues}

zero_count : (n : ℕ) → n ≡ 0 → (n == 0) ≡ true
zero_count n h = ground arith

and_right : (x y : Bool) → (x && y) ≡ true → y ≡ true
and_right x y h = ground arith

-- A turn goes on with less than n to do, or leaves the loop.
abbrev Shrinks : ManyCall → ℕ → ManyStage → Type 0
Shrinks call n (goes_on t) = (after : ℕ) × (Spread call after t × (left_to_do call t < n))
Shrinks call n (breaks t) = (after : ℕ) × (Spread call after t × (t.inflight ≡ 0))
Shrinks call n (goes_out r t) = is_neg r ≡ true
Shrinks call n hangs = ⊥

Reaps-Shrinks : (call : ManyCall) (n : ℕ) (s : ManyStage) → Reaps call n s → Shrinks call (suc n) s
Reaps-Shrinks call n (goes_on t) (after, (inv, le)) = (after, (inv, omega (arith, le)))
Reaps-Shrinks call n (breaks t) g = g
Reaps-Shrinks call n (goes_out r t) g = g
Reaps-Shrinks call n hangs g = g

abbrev pub Stops : ManyCall → List ManyTurn → ℕ → ManyRun → Type 0
Stops call turns n (over t) = (after : ℕ) × (Spread call after t × (t.inflight ≡ 0))
Stops call turns n (dropped_out r t) = is_neg r ≡ true
Stops call turns n endless = length turns < n

module _ (call : ManyCall) (qd_word : call.qd < word) (some_files : 0 < call.nfiles)
    (b : 0 < call.block_size) where
  batch-Shrinks :
      (turn : ManyTurn) (lost n : ℕ) (t : Many)
      → Spread call lost t
      → left_to_do call t ≤ n
      → Shrinks call n (reap_batch call turn t)
  unfolding reap_batch
  batch-Shrinks turn lost zero t inv le =
      simp (zero_count t.inflight (omega (arith, le, inv.count)))
        (lost, (inv, omega (arith, le, inv.count)))
  batch-Shrinks turn lost (suc n) t inv le =
      Reaps-Shrinks call n (reap_batch call turn t)
        (reap_batch-Reaps call qd_word turn lost n t inv le)

  many_turn-Shrinks :
      (turn : ManyTurn) (lost n : ℕ) (t : Many)
      → Spread call lost t
      → left_to_do call t ≤ n
      → Shrinks call n (many_turn call turn t)
  unfolding many_turn
  many_turn-Shrinks turn lost n t inv le =
      let (after, (queued, rest, more)) =
        enqueue-Queues call some_files b call.qd turn.sqes lost n t inv le in
      elim (Bool-cases (not ((enqueue call call.qd turn.sqes t).0 == 0) && is_neg turn.submit)) [
        | inl s ↦ simp s (and_right _ _ s)
        | inr s ↦
            simp s (batch-Shrinks turn after n (enqueue call call.qd turn.sqes t).1 queued rest)
      ]

  Stops-more :
      (turn : ManyTurn) (turns : List ManyTurn) (n : ℕ) (r : ManyRun)
      → Stops call turns n r
      → Stops call (turn ∷ turns) (suc n) r
  Stops-more turn turns n (over t) g = g
  Stops-more turn turns n (dropped_out r t) g = g
  Stops-more turn turns n endless h = omega (arith, h)

  resume-Stops :
      (turn : ManyTurn) (turns : List ManyTurn) (n : ℕ) (s : ManyStage) (k : Many → ManyRun)
      → Shrinks call n s
      → ((after : ℕ) (t : Many)
          → Spread call after t
          → left_to_do call t < n
          → Stops call turns n (k t))
      → Stops call (turn ∷ turns) (suc n) (many_resume s k)
  unfolding many_resume
  resume-Stops turn turns n (goes_on t) k (after, (inv, le)) next =
      Stops-more turn turns n (k t) (next after t inv le)
  resume-Stops turn turns n (breaks t) k g next = g
  resume-Stops turn turns n (goes_out r t) k g next = g
  resume-Stops turn turns n hangs k g next = absurd g

  pub many_loop-Stops :
      (turns : List ManyTurn) (lost n : ℕ) (t : Many)
      → Spread call lost t
      → left_to_do call t < n
      → Stops call turns n (many_loop call turns t)
  unfolding many_loop
  many_loop-Stops [] lost n t inv le = elim (Bool-cases (unfinished_files call t)) [
    | inl u ↦ simp u (omega (arith, le))
    | inr u ↦ simp u (lost, (inv, ground (arith, u)))
  ]
  many_loop-Stops (turn ∷ turns) lost zero t inv le = absurd (omega (arith, le))
  many_loop-Stops (turn ∷ turns) lost (suc n) t inv le =
      elim (Bool-cases (unfinished_files call t)) [
        | inl u ↦ simp u (
            resume-Stops turn turns n _ (many_loop call turns)
              (many_turn-Shrinks turn lost n t inv (omega (arith, le)))
              (λ after v w l. many_loop-Stops turns after n v w l))
        | inr u ↦ simp u (lost, (inv, ground (arith, u)))
      ]
