-- ===== src/Sync/Accepted.antt =====
-- What holds of a request whenever a method makes one.
use pyuring.Prelude.{
  ◌≤◌, inr, inl, Bool-cases, ◌&&◌, ℕ, Bool, true, false, Option, none, some, List, [], ◌∷◌, ◌≡◌,
  ltb, if◌then◌else◌, arith,
}
use pyuring.Errors.{Exception, other, Result, ok, err}
use pyuring.Abi.Types.{find, CType}
use pyuring.Abi.Convert.{null, pass_all, Arg, handle, memory, iovecs, takes_all, evaluates}
use pyuring.Abi.Agree.{signatures}
use pyuring.Sync.Request.{
  unless, request_of, native_call, dispatch, Library, Buffer, Request, with_buffer, from_buffer,
  size,
}
use pyuring.Sync.Vectors.{with_parts, each_part}
use pyuring.Sync.Waits.{siginfo_size, siginfo}

-- The request, when the method comes to make one.
abbrev pub WhenOk : {A : Type 0} → (A → Type 0) → Result A → Type 0
WhenOk P (err e) = Unit
WhenOk P (ok r) = P r

from_buffer-memory :
    (P : Arg → Type 0) (n : ℕ) (buf : Buffer) → P (memory n) → WhenOk P (from_buffer n buf)
from_buffer-memory P n buf h = ground arith

module _ (P : Request → Type 0) where
  pub request_of-WhenOk :
      {A : Type 0} (r : Result A) (f : A → Request)
      → WhenOk (λ a. P (f a)) r
      → WhenOk P (request_of r f)
  unfolding request_of
  request_of-WhenOk (err e) f h = tt
  request_of-WhenOk (ok a) f h = h

  pub unless-WhenOk :
      (o : Option Exception) (r : Result Request) → WhenOk P r → WhenOk P (unless o r)
  unfolding unless
  unless-WhenOk none r h = h
  unless-WhenOk (some e) r h = tt

  pub with_buffer-WhenOk :
      (n : ℕ) (buf : Buffer) (f : Arg → Request) → P (f (memory n)) → WhenOk P (with_buffer n buf f)
  with_buffer-WhenOk n buf f h =
      request_of-WhenOk (from_buffer n buf) f (from_buffer-memory (λ a. P (f a)) n buf h)

pub always-WhenOk : {A : Type 0} (P : A → Type 0) (r : Result A) → ((a : A) → P a) → WhenOk P r
always-WhenOk P (err e) h = tt
always-WhenOk P (ok a) h = h a

pub with_parts-WhenOk :
    (P : Request → Type 0) (g : Buffer → Result ℕ) (ps : List Buffer) (f : Arg → Arg → Request)
    → ((ns : List ℕ) (n : ℕ) → P (f (iovecs ns) (size n)))
    → WhenOk P (with_parts g ps f)
unfolding with_parts
with_parts-WhenOk P g [] f h = tt
with_parts-WhenOk P g (p ∷ ps) f h =
    request_of-WhenOk P (each_part g (p ∷ ps)) _ (always-WhenOk _ _ (λ ns. h ns _))

-- The call comes to the native function: ctypes takes every argument.
abbrev pub Reaches : Request → Type 0
Reaches r = (lib : Library) → (args : List Arg) × (dispatch lib r ≡ ok (lib r.function args))

abbrev pub takes_found : List Arg → Option (List CType) → Bool
takes_found args none = false
takes_found args (some ts) = takes_all ts args

abbrev pub arguments_taken : Request → Bool
arguments_taken r = evaluates r.args && takes_found (handle ∷ r.args) (find r.function signatures)

native_call-Reaches :
    (lib : Library) (r : Request)
    → takes_found (handle ∷ r.args) (find r.function signatures) ≡ true
    → (args : List Arg) × (native_call lib r ≡ ok (lib r.function args))
native_call-Reaches lib r h = found (find r.function signatures) h
  where
    found :
        (o : Option (List CType))
        → takes_found (handle ∷ r.args) o ≡ true
        → (args : List Arg) × ((elim o [
          | none ↦ err other
          | some ts ↦
              if takes_all ts (handle ∷ r.args)
              then ok (lib r.function (pass_all ts (handle ∷ r.args)))
              else err other
        ])
            ≡ ok (lib r.function args))
    found none e = cc
    found (some ts) e = (pass_all ts (handle ∷ r.args), rw e)

pub taken-Reaches : (r : Request) → arguments_taken r ≡ true → Reaches r
unfolding dispatch
taken-Reaches r h lib = elim (Bool-cases (evaluates r.args)) [
  | inl e ↦ rw e (native_call-Reaches lib r (ground arith))
  | inr e ↦ ground arith
]

pub siginfo-memory :
    (P : Arg → Type 0) (o : Option Buffer)
    → P null
    → ((n : ℕ) → P (memory n))
    → WhenOk P (siginfo o)
siginfo-memory P none h k = h
siginfo-memory P (some info) h k = let kn = k info.len in ground arith

pub siginfo-large :
    (P : Arg → Type 0) (o : Option Buffer)
    → P null
    → ((n : ℕ) → siginfo_size ≤ n → P (memory n))
    → WhenOk P (siginfo o)
siginfo-large P none h k = h
siginfo-large P (some info) h k = elim (Bool-cases (ltb info.len siginfo_size)) [
  | inl e ↦ ground arith
  | inr e ↦ let kn = k info.len (ground arith) in ground arith
]
