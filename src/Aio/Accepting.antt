-- ===== src/Aio/Accepting.antt =====
-- The descriptors that `iter_multishot_accept` of pyuring/aio.py yields.
use pyuring.Prelude.{ℕ, suc, ◌≡◌, refl, ◌==◌, false, List, [], ◌∷◌, ◌++◌, ℤ, pos, negsuc, arith}
use pyuring.Errors.{Result, ok, uring_error, make_error, nowhere}
use pyuring.Aio.Streams.{raised, waiting, accepts}

-- Completions among which those of the accept, with the tag `ud`, bring these descriptors.
pub data Brings (ud : ℕ) : List ℕ → List (Result (ℕ × ℤ)) → Type 0 where
  none_left : Brings ud [] []
  own :
      (fd : ℕ) (fds : List ℕ) (rs : List (Result (ℕ × ℤ)))
      → Brings ud fds rs
      → Brings ud (fd ∷ fds) (ok (ud, pos fd) ∷ rs)
  other :
      (tag : ℕ) (res : ℤ) (fds : List ℕ) (rs : List (Result (ℕ × ℤ)))
      → (tag == ud) ≡ false
      → Brings ud fds rs
      → Brings ud fds (ok (tag, res) ∷ rs)

-- From completions among which there are others, successes or errors, `iter_multishot_accept` yields
-- exactly the descriptors of its own, in order; then it waits, and an own completion with an error
-- ends it with a `UringError` of that number, whatever comes behind it.
pub accepts_lem :
    (ud : ℕ) (fds : List ℕ) (rs rest : List (Result (ℕ × ℤ))) (n : ℕ)
    → Brings ud fds rs
    → (accepts ud rs ≡ (fds, waiting))
      × (accepts ud (rs ++ (ok (ud, negsuc n) ∷ rest))
          ≡ (fds, raised (uring_error (make_error (pos (suc n)) "iter_multishot_accept" nowhere))))
unfolding accepts
accepts_lem ud fds rs rest n none_left = (refl, ground arith)
accepts_lem ud fds rs rest n (own fd fds' rs' b) =
    let (waits, ends) = accepts_lem ud fds' rs' rest n b in (ground arith, ground arith)
accepts_lem ud fds rs rest n (other tag (pos m) fds' rs' ne b) =
    let (waits, ends) = accepts_lem ud fds' rs' rest n b in (ground arith, ground arith)
accepts_lem ud fds rs rest n (other tag (negsuc m) fds' rs' ne b) =
    let (waits, ends) = accepts_lem ud fds' rs' rest n b in (ground arith, ground arith)
