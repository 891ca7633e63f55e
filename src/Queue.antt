-- ===== src/Queue.antt =====
-- The completions that the synchronous functions of csrc/uring_wrap.c take from the ring. What
-- liburing answers, and which completions the kernel has added by then, are arguments.
use pyuring.Prelude.{
  ℕ, zero, suc, ◌+◌, ◌-◌, min, Bool, true, false, List, [], ◌∷◌, ◌++◌, ℤ, pos, negsuc, ltb, ◌==◌,
  length, if◌then◌else◌,
}
pub mod Batch
pub mod Stale
pub mod Tests

-- A completion: `user_data` and `res`.
pub record Cqe : Type 0 where
  pub tag : ℕ
  pub res : ℤ

-- The completions of a ring, the oldest first.
abbrev pub Completions : Type 0
Completions = List Cqe

-- `io_uring_wait_cqe` and `io_uring_cqe_seen`: the oldest completion whatever its tag, or the error
-- when the wait ends without one.
abbrev pub take_oldest : ℕ → Completions → ℤ × Completions
take_oldest wait_error [] = (negsuc wait_error, [])
take_oldest wait_error (c ∷ q) = (c.res, q)

-- `uring_submit_wait_one`: the answer of `io_uring_submit`, then the wait, by whose end the kernel has
-- added `arrivals`.
unfoldable pub submit_wait_one : ℤ → Completions → ℕ → Completions → ℤ × Completions
submit_wait_one (negsuc e) arrivals wait_error q = (negsuc e, q)
submit_wait_one (pos n) arrivals wait_error q = take_oldest wait_error (q ++ arrivals)

-- What the loop of `uring_read_batch_sync` comes to: an error, the sum of the results, or a sum that
-- no `int` holds.
pub data Outcome : Type 0 where
  failed summed : ℕ → Outcome
  overflowed : Outcome

-- `int` has values below 2^31; what lies beyond is undefined in C.
abbrev pub int_end : ℕ
int_end = 2147483648

-- `total += res`, unless `res` is an error.
abbrev pub add_result : ℕ → ℤ × Completions → Outcome × Completions
add_result total (negsuc e, q) = (failed e, q)
add_result total (pos n, q) =
    if ltb (total + n) int_end then (summed (total + n), q) else (overflowed, q)

unfoldable pub and_then :
    Outcome × Completions → (ℕ → Completions → Outcome × Completions) → Outcome × Completions
and_then (failed e, q) f = (failed e, q)
and_then (summed total, q) f = f total q
and_then (overflowed, q) f = (overflowed, q)

-- The inner loop over `got` completions, which are seen up to the one with an error.
unfoldable pub consume : ℕ → ℕ → ℕ → Completions → Outcome × Completions
consume wait_error zero total q = (summed total, q)
consume wait_error (suc got) total q =
    and_then (add_result total (take_oldest wait_error q)) (consume wait_error got)

abbrev pub head : List ℕ → ℕ
head [] = 0
head (n ∷ ns) = n

abbrev pub tail : List ℕ → List ℕ
tail [] = []
tail (n ∷ ns) = ns

-- How many completions `io_uring_peek_batch_cqe` gives when `shown` are there to be seen.
abbrev pub got : ℕ → List ℕ → Completions → ℕ
got remaining shown q = min (min remaining 256) (min (head shown) (length q))

abbrev pub at_least_one : ℕ → ℕ
at_least_one n = if n == 0 then 1 else n

-- The loop `while (remaining)`, on fuel. `q` holds all completions in the order of their arrival, and
-- `shown` how many of them are there at each peek; when none is, the code waits for one.
unfoldable pub collect : ℕ → List ℕ → ℕ → ℕ → ℕ → Completions → Outcome × Completions
collect zero shown wait_error remaining total q = (summed total, q)
collect (suc fuel) shown wait_error zero total q = (summed total, q)
collect (suc fuel) shown wait_error (suc left) total q =
    let step = at_least_one (got (suc left) shown q) in
    and_then (consume wait_error step total q)
      (λ t r. collect fuel (tail shown) wait_error (suc left - step) t r)

-- `uring_read_batch_sync` and `uring_read_offsets_sync`, behind their tests and the entries: the
-- answer of `io_uring_submit_and_wait`, then the loop.
unfoldable pub batch : ℤ → List ℕ → ℕ → ℕ → Completions → Outcome × Completions
batch (negsuc e) shown wait_error blocks q = (failed e, q)
batch (pos n) shown wait_error blocks q = collect blocks shown wait_error blocks 0 q
