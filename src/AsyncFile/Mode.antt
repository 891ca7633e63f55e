-- ===== src/AsyncFile/Mode.antt =====
-- `_normalize_mode` and `_mode_to_flags` of pyuring/async_file.py, over code points.
use Prim.Native.Char.{code}
use pyuring.Prelude.{
  ℕ, String, Bool, true, false, ◌&&◌, ◌||◌, not, List, [], ◌∷◌, bit_or, ◌==◌, if◌then◌else◌,
}
use pyuring.Errors.{Result, ok, err, value_error}

abbrev pub codes : String → List ℕ
codes String.[] = []
codes (String.◌∷◌ c s) = code c ∷ codes s

abbrev pub text_eq : List ℕ → List ℕ → Bool
text_eq [] [] = true
text_eq [] (d ∷ t) = false
text_eq (c ∷ s) [] = false
text_eq (c ∷ s) (d ∷ t) = c == d && text_eq s t

abbrev pub member : List ℕ → List (List ℕ) → Bool
member s [] = false
member s (t ∷ ts) = text_eq s t || member s ts

-- `c in s`
abbrev pub contains : ℕ → List ℕ → Bool
contains c [] = false
contains c (d ∷ s) = c == d || contains c s

-- `str.strip`: Python's test for white space is a parameter.
abbrev lstrip : (ℕ → Bool) → List ℕ → List ℕ
lstrip space [] = []
lstrip space (c ∷ s) = let rest = lstrip space s in if space c then rest else c ∷ s

abbrev rstrip : (ℕ → Bool) → List ℕ → List ℕ
rstrip space [] = []
rstrip space (c ∷ s) = keep (rstrip space s)
  where
    keep : List ℕ → List ℕ
    keep [] = if space c then [] else c ∷ []
    keep (d ∷ t) = c ∷ d ∷ t

abbrev pub strip : (ℕ → Bool) → List ℕ → List ℕ
strip space s = rstrip space (lstrip space s)

-- `_VALID_BINARY_MODES`
abbrev pub valid_binary_modes : List (List ℕ)
valid_binary_modes =
    codes "rb"
    ∷ codes "wb"
    ∷ codes "ab"
    ∷ codes "r+b"
    ∷ codes "rb+"
    ∷ codes "w+b"
    ∷ codes "wb+"
    ∷ codes "a+b"
    ∷ codes "ab+"
    ∷ []

-- `_normalize_mode`. Its four refusals are all `ValueError`, and differ in their text.
pub data Refusal : Type 0 where
  empty_mode not_binary text_mode invalid_mode : Refusal

abbrev pub refusal : List ℕ → Refusal
refusal [] = empty_mode
refusal (c ∷ s) =
    if not (contains b'b' (c ∷ s))
    then not_binary
    else if contains b't' (c ∷ s)
    then text_mode
    else invalid_mode

pub data Normalized : Type 0 where
  mode : List ℕ → Normalized
  refused : Refusal → Normalized

abbrev pub normalized : List ℕ → Normalized
normalized m = if member m valid_binary_modes then mode m else refused (refusal m)

unfoldable pub normalize_mode : (ℕ → Bool) → List ℕ → Normalized
normalize_mode space s = normalized (strip space s)

-- The flags of `os.open` on Linux.
abbrev pub o_rdonly : ℕ
o_rdonly = 0

abbrev pub o_wronly : ℕ
o_wronly = 1

abbrev pub o_rdwr : ℕ
o_rdwr = 2

abbrev pub o_creat : ℕ
o_creat = 64

abbrev pub o_trunc : ℕ
o_trunc = 512

abbrev pub o_append : ℕ
o_append = 1024

-- `mode.replace("b", "")`
abbrev drop_b : List ℕ → List ℕ
drop_b [] = []
drop_b (c ∷ s) = let rest = drop_b s in if c == b'b' then rest else c ∷ rest

abbrev flags_of : List ℕ → Result ℕ
flags_of cm =
    if text_eq cm (codes "r")
    then ok o_rdonly
    else if text_eq cm (codes "w")
    then ok (bit_or (bit_or o_wronly o_creat) o_trunc)
    else if text_eq cm (codes "a")
    then ok (bit_or (bit_or o_wronly o_append) o_creat)
    else if text_eq cm (codes "r+")
    then ok o_rdwr
    else if text_eq cm (codes "w+")
    then ok (bit_or (bit_or o_rdwr o_creat) o_trunc)
    else if text_eq cm (codes "a+")
    then ok (bit_or (bit_or o_rdwr o_append) o_creat)
    else err value_error

-- `_mode_to_flags`
unfoldable pub mode_to_flags : List ℕ → Result ℕ
mode_to_flags m = flags_of (drop_b m)
