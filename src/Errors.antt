-- ===== src/Errors.antt =====
-- pyuring/native/errors.py, and Python's exceptions as values.
-- A method is a function of the state it changes: `Action S A`. The state comes back after a raise
-- too, since what was written stays written. `os.strerror` is the platform's: a message keeps the
-- error number, and the text is made from it.
pub mod Raise
mod Tests
use Prim.Native.Nat.{pred}
use pyuring.Errno
use pyuring.Prelude.{
  ℕ, suc, ◌≡◌, String, Bool, Option, none, some, List, [], ◌∷◌, ◌++◌, ℤ, pos, negsuc, ltb,
  if◌then◌else◌,
}

-- One entry of the parenthesis in the message: `path=…`, `offset=…`, `length=…`.
pub data Bit : Type 0 where
  path : String → Bit
  offset length : ℕ → Bit

-- `"{operation}: {strerror(code)} ({bits})\n{detail}"`, in its parts.
pub record Message : Type 0 where
  pub title : String
  pub code : ℕ
  pub bits : List Bit
  pub trailer : Option String

pub record UringError : Type 0 where
  pub errno : ℕ
  pub operation : String
  pub detail : Option String
  pub filename : Option String
  pub at_offset : Option ℕ
  pub of_length : Option ℕ
  pub message : Message

-- The keyword arguments of the constructor.
pub record Where : Type 0 where
  pub detail : Option String
  pub filename : Option String
  pub at_offset : Option ℕ
  pub of_length : Option ℕ

abbrev pub nowhere : Where
nowhere = record { detail = none; filename = none; at_offset = none; of_length = none }

-- `if detail:` takes the empty text for none.
abbrev truthy : Option String → Option String
truthy none = none
truthy (some String.[]) = none
truthy (some (String.◌∷◌ c s)) = some (String.◌∷◌ c s)

abbrev bit_of {ℓ} : {A : Type ℓ} → (A → Bit) → Option A → List Bit
bit_of f none = []
bit_of f (some a) = f a ∷ []

-- `code = errnum if errnum > 0 else errno.EINVAL`
abbrev pub error_code : ℤ → ℕ
error_code (pos n) = if ltb 0 n then n else Errno.einval
error_code (negsuc n) = Errno.einval

unfoldable pub make_error : ℤ → String → Where → UringError
make_error errnum operation w = record {
  errno = error_code errnum;
  operation = operation;
  detail = w.detail;
  filename = w.filename;
  at_offset = w.at_offset;
  of_length = w.of_length;
  message = record {
    title = operation;
    code = error_code errnum;
    bits = bit_of path w.filename ++ bit_of offset w.at_offset ++ bit_of length w.of_length;
    trailer = truthy w.detail;
  };
}

-- What the code raises, or lets through: an `OSError` that is no `UringError` is `os_error`, and
-- `other` is any further class (an `AssertionError`, what a callback raises).
pub data Exception : Type 0 where
  uring_error : UringError → Exception
  value_error type_error runtime_error index_error zero_division other : Exception
  os_error : ℕ → Exception

pub data Result {ℓ} (A : Type ℓ) : Type ℓ where
  ok : A → Result A
  err : Exception → Result A

abbrev pub Action : Type 0 → Type 0 → Type 0
Action S A = S → Result A × S

module _ {S A : Type 0} where
  abbrev pub pure : A → Action S A
  pure a s = (ok a, s)

  abbrev pub raise : Exception → Action S A
  raise e s = (err e, s)

  abbrev pub gets : (S → A) → Action S A
  gets f s = (ok (f s), s)

  -- A computation without state of its own.
  abbrev pub lift : Result A → Action S A
  lift r s = (r, s)

  -- `try: … except …`: the handler takes the exception and the state at the raise.
  abbrev pub rescue : Action S A → (Exception → Action S A) → Action S A
  rescue m h s = let (r, s') = m s in elim r [ ok a ↦ (ok a, s') | err e ↦ h e s' ]

abbrev pub modify : {S : Type 0} → (S → S) → Action S (Unit {0})
modify f s = (ok tt, f s)

abbrev pub raise_if : {S : Type 0} → Bool → Exception → Action S (Unit {0})
raise_if c e s = (if c then err e else ok tt, s)

infixl 5 ◌>>=◌ ◌>>◌
abbrev pub ◌>>=◌ : {S A B : Type 0} → Action S A → (A → Action S B) → Action S B
◌>>=◌ m f s = let (r, s') = m s in elim r [ ok a ↦ f a s' | err e ↦ raise e s' ]

abbrev pub ◌>>◌ : {S A B : Type 0} → Action S A → Action S B → Action S B
m >> k = m >>= λ _. k

-- `int(x)` of a ctypes result, and `-int(ret)`.
abbrev pub negate : ℤ → ℤ
negate (pos n) = if ltb 0 n then negsuc (pred n) else pos 0
negate (negsuc n) = pos (suc n)

-- `_raise_for_neg_errno`
unfoldable pub raise_for_neg_errno : {S : Type 0} → ℤ → String → Where → Action S (Unit {0})
unfolding make_error
raise_for_neg_errno (pos n) operation w = pure tt
raise_for_neg_errno (negsuc n) operation w =
    raise (uring_error (make_error (negate (negsuc n)) operation w))

-- A raised `UringError` with this number and stage.
abbrev pub IsUringError : {A : Type 0} → Result A → ℕ → String → Type 0
IsUringError (err (uring_error e)) n operation = (e.errno ≡ n) × (e.operation ≡ operation)
IsUringError _ n operation = ⊥
