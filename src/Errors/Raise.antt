-- ===== src/Errors/Raise.antt =====
-- What `_raise_for_neg_errno` of pyuring/native/errors.py raises, and what its message says.
use pyuring.Prelude.{
  ◌<◌, String, ◌≡◌, refl, true, false, ℤ, pos, negsuc, is_neg, magnitude, ◌⊎◌, inl, inr, arith,
}
use pyuring.Errors.{
  UringError, Where, make_error, uring_error, ok, err, raise_for_neg_errno, negate,
}

-- A result raises exactly when it is negative. What is raised carries `-ret`, which is positive, as
-- its errno and in its message, and the stage, file, offset and length of the call; no state
-- changes.
pub raise_for_neg_errno_lem :
    {S : Type 0} (ret : ℤ) (operation : String) (w : Where) (s : S)
    → ((is_neg ret ≡ false) × (raise_for_neg_errno ret operation w s ≡ (ok tt, s)))
      ⊎ ((is_neg ret ≡ true)
          × (e : UringError) × (raise_for_neg_errno ret operation w s ≡ (err (uring_error e), s))
          × (e.errno ≡ magnitude ret)
          × (0 < e.errno)
          × (e.message.code ≡ e.errno)
          × (e.message.title ≡ operation)
          × (e.operation ≡ operation)
          × (e.filename ≡ w.filename)
          × (e.at_offset ≡ w.at_offset)
          × (e.of_length ≡ w.of_length))
unfolding raise_for_neg_errno
raise_for_neg_errno_lem (pos n) operation w s = inl (refl, refl)
raise_for_neg_errno_lem (negsuc n) operation w s = inr (
  refl,
  make_error (negate (negsuc n)) operation w,
  refl,
  ground arith,
  ground arith,
  refl,
  refl,
  refl,
  refl,
  refl,
  refl,
)

-- Whatever the number, the errno of a `UringError` is positive: one that is not becomes `EINVAL`.
make_error-errno_pos :
    (n : ℤ) (operation : String) (w : Where) → 0 < (make_error n operation w).errno
unfolding make_error
make_error-errno_pos n operation w = ground arith
