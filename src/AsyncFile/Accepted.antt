-- ===== src/AsyncFile/Accepted.antt =====
-- What the accepted modes of pyuring/async_file.py mean.
use pyuring.AsyncFile.Mode.{
  refusal, refused, strip, o_creat, o_append, o_trunc, o_wronly, contains, o_rdwr,
  valid_binary_modes, mode, mode_to_flags, member, text_eq, normalize_mode,
}
use pyuring.Prelude.{
  if◌then◌else◌, ◌||◌, ◌&&◌, inr, inl, refl, arith, ◌==◌, Bool-cases, true, bit_and, ◌≡◌, not, Bool,
  ◌∷◌, ℕ, List,
}
use Prim.Native.Nat.{bit_and, ℕ}
use pyuring.Errors.{ok, err, Result}
use mathlib.Core.List.{[]}
use mathlib.Core.Bool.{false}

text_eq→eq : (s t : List ℕ) → text_eq s t ≡ true → s ≡ t
text_eq→eq [] [] h = refl
text_eq→eq [] (d ∷ t) h = cc
text_eq→eq (c ∷ s) [] h = cc
text_eq→eq (c ∷ s) (d ∷ t) h = ground (arith, text_eq→eq s t)

abbrev has : ℕ → ℕ → Bool
has flags bit = not (bit_and flags bit == 0)

-- The flags say what the letters say: `+` opens for both ways, a plain `r` for reading only and a
-- plain `w` or `a` for writing only; `w` truncates, `a` appends, and both create.
abbrev pub Means : List ℕ → Result ℕ → Type 0
Means m (err e) = ⊥
Means m (ok flags) =
    (has flags o_rdwr ≡ contains b'+' m)
    × (has flags o_wronly ≡ (not (contains b'+' m) && not (contains b'r' m)))
    × (has flags o_trunc ≡ contains b'w' m)
    × (has flags o_append ≡ contains b'a' m)
    × (has flags o_creat ≡ (contains b'w' m || contains b'a' m))

module _ (P : List ℕ → Type 0) where
  abbrev AllOf : List (List ℕ) → Type 0
  AllOf [] = Unit
  AllOf (t ∷ ts) = P t × AllOf ts

  member_all : (s : List ℕ) (ts : List (List ℕ)) → AllOf ts → member s ts ≡ true → P s
  member_all s [] a h = cc
  member_all s (t ∷ ts) a h = elim (Bool-cases (text_eq s t)) [
    | inl same ↦ rw (text_eq→eq s t same) a.0
    | inr other ↦ member_all s ts a.1 (ground arith)
  ]

mode_injective : (s m : List ℕ) → mode s ≡ mode m → s ≡ m
mode_injective s m h = cc

normalized_member :
    (s m : List ℕ) (b : Bool)
    → member s valid_binary_modes ≡ b
    → (if b then mode s else refused (refusal s)) ≡ mode m
    → member m valid_binary_modes ≡ true
normalized_member s m true e h = rw (← mode_injective s m h) e
normalized_member s m false e h = cc

all_mean : AllOf (λ t. Means t (mode_to_flags t)) valid_binary_modes
unfolding mode_to_flags
all_mean = ground arith

-- Every mode that `_normalize_mode` accepts has flags, and they mean what its letters say.
pub normalize_mode-Means :
    (space : ℕ → Bool) (s m : List ℕ) → normalize_mode space s ≡ mode m → Means m (mode_to_flags m)
unfolding normalize_mode mode_to_flags
normalize_mode-Means space s m h =
    member_all (λ t. Means t (mode_to_flags t)) m valid_binary_modes all_mean
      (normalized_member (strip space s) m _ refl h)
