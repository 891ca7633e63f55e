-- ===== src/Pipeline/Ending.antt =====
-- csrc/uring_wrap.c, `uring_copy_path_dynamic`: how the loop ends on a schedule of turns.
use pyuring.Prelude.{
  min, Bool, ◌∙◌, ℕ, zero, suc, ◌-◌, ◌*◌, ◌<◌, ◌≤◌, ◌≡◌, refl, true, false, inl, inr, List, [], ◌∷◌,
  length, arith, Bool-cases, ◌==◌, ℤ, negsuc, is_neg,
}
use pyuring.Pipeline.State.{Turn, Entry}
use pyuring.Pipeline.Copy.{
  Job, Copy, Trip, again, goto_out, blocked, Run, finished, left, waiting, loop, continue, trip,
  cancels, ecanceled, launched,
}
use pyuring.Pipeline.Effort.{
  effort, Good, cancelled, submit_failed, no_entry, transfer_failed, wait_failed, turns_left,
  Correct, Excuse,
}
use pyuring.Pipeline.Turns.{Opcode-cases, Inv-unseen}
use pyuring.Pipeline.Seen.{Seen, Flushes, trip-Seen}
use pyuring.Pipeline.Invariant.{Sane, Inv}
use pyuring.Pipeline.Blocks.{All}
use pyuring.Pipeline.Progress.{Inv-Correct, trip-Turned}
use pyuring.Pipeline.Priming.{Ready}

-- No call of the turn fails.
pub record Answered (turn : Turn) : Type 0 where
  pub wait : is_neg turn.wait ≡ false
  pub errno : turn.errno ≡ 0
  pub sqe : turn.sqe ≡ true
  pub submit : is_neg turn.submit ≡ false
  pub flushes : turn.left_queued ≡ 0

-- The entry moves all of its bytes.
abbrev pub Whole : Turn → Type 0
Whole turn = turn.lack ≡ 0

Excuse-Answered :
    (job : Job) (turn : Turn) (r : ℤ) (t : Copy)
    → Answered turn
    → is_neg r ≡ true
    → Excuse job turn r t
    → (cancels job t.copied ≡ true) × (r ≡ negsuc (ecanceled - 1))
Excuse-Answered job turn r t a n (wait_failed e) = ground (arith, n, e, a.wait)
Excuse-Answered job turn r t a n (transfer_failed h e) = absurd (h a.errno)
Excuse-Answered job turn r t a n (no_entry q e) = ground (arith, q, a.sqe)
Excuse-Answered job turn r t a n (submit_failed e) = ground (arith, n, e, a.submit)
Excuse-Answered job turn r t a n (cancelled c e) = (c, e)

-- What is known of the end of a loop that had lost `lost` bytes when its schedule began.
pub record Finish (job : Job) (lost : ℕ) (turns : List Turn) (t : Copy) : Type 0 where
  pub lost_at_end : ℕ
  pub inv : Inv job lost_at_end t
  pub idle : t.inflight ≡ 0
  pub least : lost ≤ lost_at_end
  pub whole : All Whole turns → lost_at_end ≡ lost

pub record Leave (job : Job) (turns : List Turn) (r : ℤ) (t : Copy) : Type 0 where
  pub negative : is_neg r ≡ true
  pub correct : Correct job t
  pub cancelled : All Answered turns → (cancels job t.copied ≡ true) × (r ≡ negsuc (ecanceled - 1))

-- Under the condition `flow`, the loop has ended before `bound` turns.
abbrev pub Ended : Job → ℕ → List Turn → Type 0 → ℕ → Run → Type 0
Ended job lost turns flow bound (finished t) = Finish job lost turns t
Ended job lost turns flow bound (left r t) = Leave job turns r t
Ended job lost turns flow bound waiting = flow → length turns < bound

-- Every entry has been submitted, and will be.
abbrev pub Flow : Copy → List Turn → Type 0
Flow t turns = (t.unseen ≡ 0) × All Flushes turns

Finish-more :
    (job : Job) (lost after : ℕ) (turn : Turn) (turns : List Turn) (t : Copy)
    → (turn.lack ≡ 0 → after ≡ lost)
    → lost ≤ after
    → Finish job after turns t
    → Finish job lost (turn ∷ turns) t
Finish-more job lost after turn turns t same le f = record {
  lost_at_end = f.lost_at_end;
  inv = f.inv;
  idle = f.idle;
  least = omega (arith, f.least);
  whole = λ a. f.whole a.1 ∙ same a.0;
}

Ended-more :
    (job : Job) (lost after bound before : ℕ) (turn : Turn) (turns : List Turn) (flow on : Type 0)
    (r : Run)
    → (turn.lack ≡ 0 → after ≡ lost)
    → lost ≤ after
    → bound < before
    → (on → flow)
    → Ended job after turns flow bound r
    → Ended job lost (turn ∷ turns) on before r
Ended-more job lost after bound before turn turns flow on (finished t) same le less o f =
    Finish-more job lost after turn turns t same le f
Ended-more job lost after bound before turn turns flow on (left r t) same le less o l = record {
  negative = l.negative;
  correct = l.correct;
  cancelled = λ a. l.cancelled a.1;
}
Ended-more job lost after bound before turn turns flow on waiting same le less o h =
    λ q. omega (arith, h (o q), less)

idle-Ended :
    (job : Job) (lost : ℕ) (turns : List Turn) (flow : Type 0) (bound : ℕ) (t : Copy)
    → Inv job lost t
    → t.inflight ≡ 0
    → Ended job lost turns flow bound (finished t)
idle-Ended job lost turns flow bound t inv idle = record {
  lost_at_end = lost;
  inv = inv;
  idle = idle;
  least = omega arith;
  whole = λ a. refl;
}

effort-length : (es : List Entry) → length es ≤ effort es
effort-length [] = omega arith
effort-length (e ∷ es) = elim (Opcode-cases e.opcode) [
  | inl w ↦ simp w (omega (arith, effort-length es))
  | inr w ↦ simp w (omega (arith, effort-length es))
]

turn_left :
    (job : Job) (lost : ℕ) (t : Copy) → Inv job lost t → 0 < t.inflight → 0 < turns_left job t
turn_left job lost t inv h = omega (arith, inv.count, h, effort-length t.pending)

Loses-le :
    (lost after lack : ℕ) → (lack ≡ 0 → after ≡ lost) → (0 < lack → lost < after) → lost ≤ after
Loses-le lost after zero same more = omega (arith, same refl)
Loses-le lost after (suc lack) same more = omega (arith, more (omega arith))

continue-Ended :
    (job : Job) (lost after bound : ℕ) (turn : Turn) (turns : List Turn) (seen : Type 0)
    (k : Copy → Run) (r : Trip)
    → Good job after turn bound r
    → (turn.lack ≡ 0 → after ≡ lost)
    → lost ≤ after
    → (seen → Flushes turn → Seen r)
    → ((u : Copy) → Inv job after u → Ended job after turns (Flow u turns) (turns_left job u) (k u))
    → Ended job lost (turn ∷ turns) (seen × All Flushes (turn ∷ turns)) bound (continue r k)
unfolding continue
continue-Ended job lost after bound turn turns seen k (again u) good same le flow ih =
    Ended-more job lost after (turns_left job u) bound turn turns (Flow u turns)
      (seen × All Flushes (turn ∷ turns)) (k u) same le good.1 (λ q. (flow q.0 q.1.0, q.1.1))
      (ih u good.0)
continue-Ended job lost after bound turn turns seen k (goto_out r u) good same le flow ih = record {
  negative = good.0;
  correct = good.2;
  cancelled = λ a. Excuse-Answered job turn r u a.0 good.0 good.1;
}
continue-Ended job lost after bound turn turns seen k blocked good same le flow ih =
    λ q. absurd (flow q.0 q.1.0)

positive : (n : ℕ) → (n == 0) ≡ false → 0 < n
positive n h = ground arith

pub loop-Ended :
    (job : Job) (lost : ℕ) (turns : List Turn) (t : Copy)
    → Sane job
    → Inv job lost t
    → Ended job lost turns (Flow t turns) (turns_left job t) (loop job turns t)
unfolding loop
loop-Ended job lost [] t sane inv = elim (Bool-cases (t.inflight == 0)) [
  | inl z ↦ simp z (idle-Ended job lost [] (Flow t []) (turns_left job t) t inv (ground arith))
  | inr z ↦ simp z (λ q. turn_left job lost t inv (ground arith))
]
loop-Ended job lost (turn ∷ turns) t sane inv = elim (Bool-cases (t.inflight == 0)) [
  | inl z ↦ simp z (
      idle-Ended job lost (turn ∷ turns) (Flow t (turn ∷ turns)) (turns_left job t) t inv
        (ground arith))
  | inr z ↦ simp z (
      let (after, (good, (same, more))) = trip-Turned job sane lost turn t inv (ground arith) in
      continue-Ended job lost after (turns_left job t) turn turns (t.unseen ≡ 0) (loop job turns)
        (trip job turn t) good same (Loses-le lost after turn.lack same more)
        (λ seen f.
          trip-Seen turn f job t (omega (arith, inv.count, positive t.inflight z))
            (positive t.inflight z) seen)
        (λ u i. loop-Ended job after turns u sane i))
]

-- How a pipeline ends, priming included.
pub record Quit (job : Job) (sqe : ℕ → Bool) (submit : ℤ) (turns : List Turn) (r : ℤ) (t : Copy)
    : Type 0 where
  pub negative : is_neg r ≡ true
  pub correct : Correct job t
  pub cancelled :
      ((i : ℕ) → sqe i ≡ true)
      → is_neg submit ≡ false
      → All Answered turns
      → (cancels job t.copied ≡ true) × (r ≡ negsuc (ecanceled - 1))

positive_count : (n : ℕ) → 0 < n → (n == 0) ≡ false
positive_count n h = ground arith

-- The same when the first turn is short: from there on some bytes are lost.
pub loop-Short :
    (job : Job) (turn : Turn) (turns : List Turn) (t : Copy)
    → Sane job
    → 0 < turn.lack
    → Inv job 0 t
    → 0 < t.inflight
    → Ended job 1
        (turn ∷ turns)
        (Flow t (turn ∷ turns))
        (turns_left job t)
        (loop job (turn ∷ turns) t)
unfolding loop
loop-Short job turn turns t sane short inv h =
    let (after, (good, (same, more))) = trip-Turned job sane 0 turn t inv h in
    simp (positive_count t.inflight h) (
      continue-Ended job 1 after (turns_left job t) turn turns (t.unseen ≡ 0) (loop job turns)
        (trip job turn t) good (λ z. absurd (omega (arith, z, short))) (omega (arith, more short))
        (λ seen f. trip-Seen turn f job t (omega (arith, inv.count, h)) h seen)
        (λ u i. loop-Ended job after turns u sane i))

abbrev pub Settled : Job → ℕ → ℕ → (ℕ → Bool) → ℤ → List Turn → Run → Type 0
Settled job lost queued sqe submit turns (finished t) = Finish job lost turns t
Settled job lost queued sqe submit turns (left r t) = Quit job sqe submit turns r t
Settled job lost queued sqe submit turns waiting =
    (queued ≡ 0) × All Flushes turns → length turns < 2 * job.file_size

Ended-Settled :
    (job : Job) (lost queued : ℕ) (sqe : ℕ → Bool) (submit : ℤ) (turns : List Turn) (flow : Type 0)
    (bound : ℕ) (r : Run)
    → bound ≤ 2 * job.file_size
    → ((queued ≡ 0) × All Flushes turns → flow)
    → Ended job lost turns flow bound r
    → Settled job lost queued sqe submit turns r
Ended-Settled job lost queued sqe submit turns flow bound (finished t) le o f = f
Ended-Settled job lost queued sqe submit turns flow bound (left r t) le o l = record {
  negative = l.negative;
  correct = l.correct;
  cancelled = λ s n a. l.cancelled a;
}
Ended-Settled job lost queued sqe submit turns flow bound waiting le o h =
    λ q. omega (arith, h (o q), le)

pub launched-Settled :
    (job : Job) (lost queued : ℕ) (sqe : ℕ → Bool) (submit : ℤ) (turns : List Turn) (r : Trip)
    → Sane job
    → ((t : Copy)
        → Inv job 0 t
        → t.copied ≡ 0
        → Ended job lost turns (Flow t turns) (turns_left job t) (loop job turns t))
    → Ready job sqe r
    → Settled job lost queued sqe submit turns (launched job queued submit turns r)
unfolding launched
launched-Settled job lost queued sqe submit turns (again t) sane loops ready =
    elim (Bool-cases (is_neg submit)) [
      | inl n ↦ simp n (record {
        negative = n;
        correct = Inv-Correct job 0 t ready.0;
        cancelled = λ s ok a. absurd (ground (arith, n, ok));
      })
      | inr n ↦ simp n (
          let u : Copy = record t { unseen = min queued t.inflight } in
          Ended-Settled job lost queued sqe submit turns (Flow u turns) (turns_left job t)
            (loop job turns u) ready.1 (λ q. (omega (arith, q.0), q.1))
            (loops u (Inv-unseen job 0 (min queued t.inflight) t ready.0) ready.2))
    ]
launched-Settled job lost queued sqe submit turns (goto_out r t) sane loops ready = record {
  negative = rw ready.0.0 refl;
  correct = ready.1;
  cancelled = λ s ok a. absurd (ready.0.1 s);
}
launched-Settled job lost queued sqe submit turns blocked sane loops ready = absurd ready
