-- ===== src/Queue/Stale.antt =====
-- Whose result a synchronous call returns, in csrc/uring_wrap.c.
use pyuring.Prelude.{
  lt→ltb, ltb, true, ◌≤◌, false, ◌==◌, some, sym, ap, ◌∙◌, ℕ, zero, suc, ◌+◌, ◌<◌, ◌≡◌, refl, List,
  [], ◌∷◌, ◌++◌, pos, negsuc, arith, length,
}
use pyuring.Queue.{
  int_end, take_oldest, Cqe, Completions, failed, summed, and_then, consume, batch, submit_wait_one,
}
use mathlib.Core.List.{append-nil}
use pyuring.Queue.Batch.{batch_one_by_one}
use pyuring.Ctx.State.{ensure_open, UringCtx}
use pyuring.Errors.{ok}
use pyuring.Ctx.Async.{completion_release_async_io_buffer, cqe, wait_completion, lookup}
use pyuring.Ctx.Pins.{lookup-erase}

-- Completions without an error, by tag and result, and the sum of their results.
abbrev pub successes : List (ℕ × ℕ) → Completions
successes [] = []
successes ((t, k) ∷ ks) = record { tag = t; res = pos k } ∷ successes ks

abbrev pub sum_of : ℕ → List (ℕ × ℕ) → ℕ
sum_of total [] = total
sum_of total ((t, k) ∷ ks) = sum_of (total + k) ks

sum_of-least : (total : ℕ) (ks : List (ℕ × ℕ)) → total ≤ sum_of total ks
sum_of-least total [] = omega arith
sum_of-least total ((t, k) ∷ ks) = omega (arith, sum_of-least (total + k) ks)

in_int :
    (total k : ℕ) (ks : List (ℕ × ℕ))
    → sum_of (total + k) ks < int_end
    → ltb (total + k) int_end ≡ true
in_int total k ks h = lt→ltb (total + k) int_end (omega (arith, h, sum_of-least (total + k) ks))

consume-successes :
    (w total : ℕ) (ks : List (ℕ × ℕ)) (q : Completions)
    → sum_of total ks < int_end
    → consume w (length ks) total (successes ks ++ q) ≡ (summed (sum_of total ks), q)
unfolding consume and_then
consume-successes w total [] q h = refl
consume-successes w total ((t, k) ∷ ks) q h =
    simp (in_int total k ks h) (consume-successes w (total + k) ks q h)

consume-failure :
    (w blocks total : ℕ) (ks : List (ℕ × ℕ)) (t e : ℕ) (q : Completions)
    → length ks < blocks
    → sum_of total ks < int_end
    → consume w blocks total (successes ks ++ (record { tag = t; res = negsuc e } ∷ q))
      ≡ (failed e, q)
unfolding consume and_then
consume-failure w zero total ks t e q h s = absurd (omega arith)
consume-failure w (suc blocks) total [] t e q h s = refl
consume-failure w (suc blocks) total ((t', k) ∷ ks) t e q h s =
    simp (in_int total k ks s) (consume-failure w blocks (total + k) ks t e q (omega arith) s)

-- On a ring without other completions, a batch of which every block is read returns the sum of its
-- results, if an `int` holds it, and the next synchronous call returns the result of its own entry, in whatever portions
-- the completions of the batch came to be seen.
batch_then_own :
    (n m : ℕ) (shown : List ℕ) (w w' : ℕ) (ks : List (ℕ × ℕ)) (own : Cqe) (later : Completions)
    → sum_of 0 ks < int_end
    → let r = batch (pos n) shown w (length ks) (successes ks) in
      (r.0 ≡ summed (sum_of 0 ks))
      × (submit_wait_one (pos m) (own ∷ later) w' r.1 ≡ (own.res, later))
unfolding submit_wait_one
batch_then_own n m shown w w' ks own later s =
    let e =
      batch_one_by_one n shown w (length ks) (successes ks)
      ∙ ap (consume w (length ks) 0) (sym (append-nil (successes ks)))
      ∙ consume-successes w 0 ks [] s in
    (ap (λ r. r.0) e, ap (λ r. take_oldest w' (r.1 ++ (own ∷ later))) e)

-- A batch that meets an error, the results before it having a sum that an `int` holds, returns it and leaves the completions behind it in the ring; the next
-- synchronous call returns the result of the first of these, not that of its own entry.
pub batch_failed_leaves :
    (n m : ℕ) (shown : List ℕ) (w w' blocks : ℕ) (ks : List (ℕ × ℕ)) (t e : ℕ) (left : Cqe)
    (rest arrivals : Completions)
    → length ks < blocks
    → sum_of 0 ks < int_end
    → let r =
        batch
          (pos n)
          shown
          w
          blocks
          (successes ks ++ (record { tag = t; res = negsuc e } ∷ left ∷ rest)) in
      (r.0 ≡ failed e) × (submit_wait_one (pos m) arrivals w' r.1 ≡ (left.res, rest ++ arrivals))
unfolding submit_wait_one
batch_failed_leaves n m shown w w' blocks ks t e left rest arrivals h s =
    let e =
      batch_one_by_one n shown w blocks _ ∙ consume-failure w blocks 0 ks t e (left ∷ rest) h s in
    (ap (λ r. r.0) e, ap (λ r. take_oldest w' (r.1 ++ arrivals)) e)

-- However the completions come to be seen, and when the sum of the results is one that an `int` holds:
-- a batch of which every block is read returns the sum of the results, and takes as many completions
-- as it has blocks; a batch of which one is not read returns the first error, and takes the
-- completions up to this one.
pub batch_results :
    (n : ℕ) (shown : List ℕ) (w : ℕ) (ks : List (ℕ × ℕ)) (rest : Completions)
    → sum_of 0 ks < int_end
    → (batch (pos n) shown w (length ks) (successes ks ++ rest) ≡ (summed (sum_of 0 ks), rest))
      × ((k t e : ℕ)
          → batch
              (pos n)
              shown
              w
              (length ks + suc k)
              (successes ks ++ (record { tag = t; res = negsuc e } ∷ rest))
            ≡ (failed e, rest))
batch_results n shown w ks rest s = (
  batch_one_by_one n shown w (length ks) _ ∙ consume-successes w 0 ks rest s,
  λ k t e.
      batch_one_by_one n shown w (length ks + suc k) _
      ∙ consume-failure w (length ks + suc k) 0 ks t e rest (omega arith) s,
)

-- A synchronous call takes a completion of an asynchronous one that waits in the ring: it returns
-- that result as its own. `wait_completion` then gets the completion of the synchronous call, and
-- leaves the buffer of the asynchronous one pinned under its tag.
pub sync_takes_async :
    (tid m w : ℕ) (c : UringCtx) (async own : Cqe) (buffer : ℕ)
    → ensure_open tid c ≡ (ok tt, c)
    → lookup async.tag c.keepalive ≡ some buffer
    → (own.tag == async.tag) ≡ false
    → let q = wait_completion tid (cqe own.tag own.res) c in
      (submit_wait_one (pos m) (own ∷ []) w (async ∷ []) ≡ (async.res, own ∷ []))
      × (q.0 ≡ ok (own.tag, own.res))
      × (lookup async.tag q.1.keepalive ≡ some buffer)
unfolding submit_wait_one wait_completion completion_release_async_io_buffer
sync_takes_async tid m w c async own buffer g p d =
    (refl, ground arith, ground (arith, lookup-erase own.tag async.tag c.keepalive))
