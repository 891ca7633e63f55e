-- ===== src/Pipeline/Written.antt =====
-- csrc/uring_wrap.c, `uring_write_newfile_dynamic`: turns of its loop, how it ends, and what a caller
-- can rely on.
use pyuring.Prelude.{
  ◌&&◌, not, if◌then◌else◌, Bool, ◌-◌, ◌∙◌, ℕ, suc, ◌+◌, ◌<◌, ◌≤◌, ◌≡◌, refl, true, false, inl, inr,
  List, [], ◌∷◌, length, arith, Bool-cases, ◌==◌, ℤ, pos, negsuc, is_neg,
}
use pyuring.Pipeline.Blocks.{All}
use pyuring.Pipeline.Newfile.{
  reap_all, Done, WriteJob, Writing, Stage, go_on, give_up, stuck, fill, submit_pending,
  write_cancels, and_next, WriteTurn, wait_and_reap, write_turn, at_work, WriteRun, all_written,
  gave_up, unfinished, write_loop, resume,
}
use pyuring.Pipeline.Stages.{
  reap_all-Goes, reap_some-Goes, fill_some, Filled-Partial, fill-Filled, todo, Partial, Entire,
  Goes, Fine,
}
use pyuring.Pipeline.Filling.{Sound, Filled}

-- Every completion of a turn writes all of its bytes; no call of it fails.
abbrev pub EntireTurn : WriteTurn → Type 0
EntireTurn turn = All Entire turn.completed

pub record FineTurn (turn : WriteTurn) : Type 0 where
  pub submit : is_neg turn.submit ≡ false
  pub wait : is_neg turn.wait ≡ false
  pub writes : All Fine turn.completed

-- The turn gives an entry at least, and a completion.
abbrev pub flows : WriteTurn → Bool
flows turn = not (turn.sqes == 0) && not (length turn.completed == 0)

abbrev pub flowing : List WriteTurn → ℕ
flowing [] = 0
flowing (turn ∷ turns) = if flows turn then suc (flowing turns) else flowing turns

Goes-fine :
    (job : WriteJob) (whole fine ok : Type 0) (lost n : ℕ) (s : Stage)
    → (ok → fine)
    → Goes job whole fine lost n s
    → Goes job whole ok lost n s
Goes-fine job whole fine ok lost n (go_on t) w g = g
Goes-fine job whole fine ok lost n (give_up r t) w g = (g.0, g.1, (λ p. g.2 (w p)))
Goes-fine job whole fine ok lost n stuck w g = g

Goes-le :
    (job : WriteJob) (whole fine : Type 0) (lost n m : ℕ) (s : Stage)
    → n ≤ m
    → Goes job whole fine lost n s
    → Goes job whole fine lost m s
Goes-le job whole fine lost n m (go_on t) h (after, (f, le, z, w)) =
    (after, (f, omega (arith, le), z, w))
Goes-le job whole fine lost n m (give_up r t) h g = g
Goes-le job whole fine lost n m stuck h g = g

some_completed :
    (job : WriteJob) (sound : Sound job) (ds : List Done) (lost n : ℕ) (t : Writing)
    → 0 < length ds
    → Filled job lost t
    → t.pending ≡ 0
    → 0 < t.inflight
    → todo job t ≤ suc n
    → Goes job (All Entire ds) (All Fine ds) lost n (reap_all job ds t)
some_completed job sound [] lost n t l f z h le = absurd (omega (arith, l))
some_completed job sound (d ∷ ds) lost n t l f z h le =
    reap_some-Goes job sound d ds lost n t f z h le

module _ (job : WriteJob) (sound : Sound job) (turn : WriteTurn) (lost : ℕ) where
  abbrev TurnGoes : ℕ → Stage → Type 0
  TurnGoes = Goes job (EntireTurn turn) (FineTurn turn) lost

  -- The wait and the batches behind it, when the batches come to `TurnGoes n`.
  wait-Goes :
      (n : ℕ) (t : Writing)
      → Filled job lost t
      → t.pending ≡ 0
      → ((t.inflight ≡ 0) → todo job t ≤ n)
      → (0 < t.inflight
          → Goes job
              (EntireTurn turn)
              (All Fine turn.completed)
              lost
              n
              (reap_all job turn.completed t))
      → TurnGoes n (wait_and_reap job turn t)
  unfolding wait_and_reap
  wait-Goes n t f z none some_left = elim (Bool-cases (t.inflight == 0)) [
    | inl i ↦ simp i (lost, (f, none (ground arith), z, (λ w. refl)))
    | inr i ↦ elim (Bool-cases (is_neg turn.wait)) [
      | inl b ↦
          simp (i, b) (refl, Filled-Partial job lost t f, (λ w. absurd (ground (arith, b, w.wait))))
      | inr b ↦
          simp (i, b)
            (Goes-fine job (EntireTurn turn) (All Fine turn.completed) (FineTurn turn) lost n _
              (λ w. w.writes) (some_left (ground arith)))
    ]
  ]

  submit-Goes :
      (n : ℕ) (r : ℤ) (t : Writing)
      → r ≡ turn.submit
      → Filled job lost t
      → ((u : Writing)
          → Filled job lost u
          → u.pending ≡ 0
          → u.inflight ≡ t.inflight + t.pending
          → todo job u ≡ todo job t
          → TurnGoes n (wait_and_reap job turn u))
      → TurnGoes n (and_next (submit_pending r t) (wait_and_reap job turn))
  unfolding submit_pending and_next
  submit-Goes n (pos k) t q f next =
      next (record t { inflight = t.inflight + t.pending; pending = 0 })
        (record {
          entries = f.entries;
          count = omega (arith, f.count);
          room = omega (arith, f.room);
          sum = f.sum;
          within = f.within;
          clean = f.clean;
          extent = f.extent;
          covered = f.covered;
        })
        refl refl refl
  submit-Goes n (negsuc k) t q f next = elim (Bool-cases (t.pending == 0)) [
    | inl b ↦ simp b (next t f (ground arith) (ground arith) refl)
    | inr b ↦
        simp b (refl, Filled-Partial job lost t f, (λ w. absurd (ground (arith, w.submit, q))))
  ]

  any_turn-Goes :
      (n : ℕ) (t : Writing)
      → Filled job lost t
      → todo job t ≤ n
      → TurnGoes n (write_turn job turn t)
  unfolding write_turn
  any_turn-Goes n t f le =
      let r = fill-Filled job sound job.call.qd turn.sqes lost t f in
      submit-Goes n turn.submit (fill job job.call.qd turn.sqes t) refl r.0 (λ u g z i same.
        wait-Goes n u g z (λ idle. omega (arith, le, r.1, same))
          (λ busy.
            reap_all-Goes job sound turn.completed lost n u g z (omega (arith, le, r.1, same))))

  flowing_turn-Goes :
      (n sqes : ℕ) (t : Writing)
      → turn.sqes ≡ suc sqes
      → 0 < length turn.completed
      → Filled job lost t
      → at_work job t ≡ true
      → todo job t ≤ suc n
      → TurnGoes n (write_turn job turn t)
  unfolding write_turn
  flowing_turn-Goes n sqes t given completed f b le =
      let r = fill-Filled job sound job.call.qd turn.sqes lost t f in
      let some_queued : 0
          < (fill job job.call.qd turn.sqes t).inflight
            + (fill job job.call.qd turn.sqes t).pending =
        rw given (fill_some job sound job.call.qd sqes lost t f sound.queue b) in
      submit-Goes n turn.submit (fill job job.call.qd turn.sqes t) refl r.0 (λ u g z i same.
        wait-Goes n u g z (λ idle. absurd (omega (arith, i, idle, some_queued)))
          (λ busy.
            some_completed job sound turn.completed lost n u completed g z busy
              (omega (arith, le, r.1, same))))

abbrev pub Closes : WriteJob → List WriteTurn → ℕ → ℕ → WriteRun → Type 0
Closes job turns lost n (all_written t) =
    (at_work job t ≡ false)
    × ((after : ℕ) × (Filled job after t × (All EntireTurn turns → after ≡ lost)))
Closes job turns lost n (gave_up r t) =
    (is_neg r ≡ true) × Partial job t × (All FineTurn turns → write_cancels job t.written ≡ true)
Closes job turns lost n unfinished = flowing turns < n

Closes-more :
    (job : WriteJob) (turn : WriteTurn) (turns : List WriteTurn) (lost after n m : ℕ) (r : WriteRun)
    → (flowing turns < n → flowing (turn ∷ turns) < m)
    → (EntireTurn turn → after ≡ lost)
    → Closes job turns after n r
    → Closes job (turn ∷ turns) lost m r
Closes-more job turn turns lost after n m (all_written t) l w (b, (last, (f, v))) =
    (b, (last, (f, (λ p. v p.1 ∙ w p.0))))
Closes-more job turn turns lost after n m (gave_up r t) l w g = (g.0, g.1, (λ p. g.2 p.1))
Closes-more job turn turns lost after n m unfinished l w h = l h

resume-Closes :
    (job : WriteJob) (turn : WriteTurn) (turns : List WriteTurn) (lost n m : ℕ) (s : Stage)
    (k : Writing → WriteRun)
    → (flowing turns < n → flowing (turn ∷ turns) < m)
    → Goes job (EntireTurn turn) (FineTurn turn) lost n s
    → ((after : ℕ) (t : Writing)
        → Filled job after t
        → t.pending ≡ 0
        → todo job t ≤ n
        → Closes job turns after n (k t))
    → Closes job (turn ∷ turns) lost m (resume s k)
unfolding resume
resume-Closes job turn turns lost n m (go_on t) k l (after, (f, le, z, w)) next =
    Closes-more job turn turns lost after n m (k t) l w (next after t f z le)
resume-Closes job turn turns lost n m (give_up r t) k l g next = (g.0, g.1, (λ p. g.2 p.0))
resume-Closes job turn turns lost n m stuck k l g next = absurd g

work_left :
    (job : WriteJob) (lost : ℕ) (t : Writing)
    → Filled job lost t
    → at_work job t ≡ true
    → 0 < todo job t
work_left job lost t f b = ground (arith, f.count, b)

one_less : (n : ℕ) → 0 < n → n ≡ suc (n - 1)
one_less n h = omega arith

-- Each turn that flows has less left to do than before; no turn has more.
pub loop-Closes :
    (job : WriteJob) (turns : List WriteTurn) (lost n : ℕ) (t : Writing)
    → Sound job
    → Filled job lost t
    → t.pending ≡ 0
    → todo job t ≤ n
    → Closes job turns lost n (write_loop job turns t)
unfolding write_loop
loop-Closes job [] lost n t sound f z le = elim (Bool-cases (at_work job t)) [
  | inl b ↦ simp b (omega (arith, le, work_left job lost t f b))
  | inr b ↦ simp b (refl, (lost, (f, (λ w. refl))))
]
loop-Closes job (turn ∷ turns) lost n t sound f z le = elim (Bool-cases (at_work job t)) [
  | inr b ↦ simp b (refl, (lost, (f, (λ w. refl))))
  | inl b ↦ elim (Bool-cases (flows turn)) [
    | inr l ↦ simp b (
        resume-Closes job turn turns lost n n _ (write_loop job turns) (λ h. simp l h)
          (any_turn-Goes job sound turn lost n t f le)
          (λ after u g y m. loop-Closes job turns after n u sound g y m))
    | inl l ↦ simp b (
        resume-Closes job turn turns lost (n - 1) n _ (write_loop job turns)
          (λ h. simp l (omega (arith, h)))
          (flowing_turn-Goes job sound turn lost (n - 1) (turn.sqes - 1) t
            (one_less turn.sqes (ground (arith, l))) (ground (arith, l)) f b (omega (arith, le)))
          (λ after u g y m. loop-Closes job turns after (n - 1) u sound g y m))
  ]
]
