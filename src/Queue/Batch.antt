-- ===== src/Queue/Batch.antt =====
-- The loop of `uring_read_batch_sync` and `uring_read_offsets_sync` in csrc/uring_wrap.c.
use mathlib.Core.Path.{ap}
use pyuring.Prelude.{◌<◌, ◌∙◌, ℕ, zero, suc, ◌+◌, ◌-◌, ◌≤◌, ◌≡◌, refl, List, pos, arith}
use pyuring.Queue.{
  at_least_one, Completions, Outcome, failed, summed, overflowed, take_oldest, add_result, and_then,
  consume, collect, got, tail, batch,
}

and_then-and_then :
    (x : Outcome × Completions) (f g : ℕ → Completions → Outcome × Completions)
    → and_then (and_then x f) g ≡ and_then x (λ t q. and_then (f t q) g)
unfolding and_then
and_then-and_then (failed e, q) f g = refl
and_then-and_then (summed t, q) f g = refl
and_then-and_then (overflowed, q) f g = refl

step_bound :
    (remaining : ℕ) (shown : List ℕ) (q : Completions)
    → 0 < remaining
    → let step = at_least_one (got remaining shown q) in (0 < step) × (step ≤ remaining)
step_bound remaining shown q h = (ground arith, ground arith)

and_then_cong :
    (x : Outcome × Completions) (f g : ℕ → Completions → Outcome × Completions)
    → ((t : ℕ) (q : Completions) → f t q ≡ g t q)
    → and_then x f ≡ and_then x g
unfolding and_then
and_then_cong (failed e, q) f g h = refl
and_then_cong (summed t, q) f g h = h t q
and_then_cong (overflowed, q) f g h = refl

consume_add :
    (w a b n total : ℕ) (q : Completions)
    → b + a ≡ n
    → and_then (consume w a total q) (consume w b) ≡ consume w n total q
unfolding consume
consume_add w zero b n total q h = unfold and_then in ap (λ k. consume w k total q) (omega arith)
consume_add w (suc a) b zero total q h = absurd (omega arith)
consume_add w (suc a) b (suc m) total q h =
    and_then-and_then (add_result total (take_oldest w q)) (consume w a) (consume w b)
    ∙ and_then_cong (add_result total (take_oldest w q)) _ _
        (λ t r. consume_add w a b m t r (omega arith))

collect_lem :
    (fuel : ℕ) (shown : List ℕ) (w remaining total : ℕ) (q : Completions)
    → remaining ≤ fuel
    → collect fuel shown w remaining total q ≡ consume w remaining total q
unfolding collect
collect_lem zero shown w zero total q h = unfold consume in refl
collect_lem (suc fuel) shown w zero total q h = unfold consume in refl
collect_lem zero shown w (suc left) total q h = absurd (omega arith)
collect_lem (suc fuel) shown w (suc left) total q h =
    let step = at_least_one (got (suc left) shown q) in
    let bound = step_bound (suc left) shown q (omega arith) in
    and_then_cong (consume w step total q) _ _
      (λ t r. collect_lem fuel (tail shown) w (suc left - step) t r (omega arith))
    ∙ consume_add w step (suc left - step) (suc left) total q (omega arith)

-- However many completions each peek shows, the loop comes to the same as taking them one at a time:
-- the first error, the sum of as many results as there are blocks, or an overflow of the sum.
pub batch_one_by_one :
    (n : ℕ) (shown : List ℕ) (w blocks : ℕ) (q : Completions)
    → batch (pos n) shown w blocks q ≡ consume w blocks 0 q
unfolding batch
batch_one_by_one n shown w blocks q = collect_lem blocks shown w blocks 0 q (omega arith)
