-- ===== src/Uapi/Names.antt =====
-- The exported names of pyuring/native/constants.py, and what the numbers of its enumerations are.
use Prim.Native.String.{compare}
use text.Mathlib.Text.{starts_with, is_le}
use pyuring.Prelude.{
  ap, ◌∙◌, ℕ, suc, ◌+◌, ◌++◌, String, Bool, true, false, ◌&&◌, ◌||◌, List, [], ◌∷◌, ◌≡◌, refl, some,
  ◌==◌, if◌then◌else◌, get_elem?, map, arith,
}
use pyuring.Uapi.Flags.{setup_flags, sqe_flags, opcodes, bit}
use pyuring.Uapi.Others.{operation_flags, completion_flags_and_advice}
use Prim.Native.Nat.{zero}

abbrev prefixes : List String
prefixes =
    "IORING_" ∷ "IOSQE_" ∷ "AT_" ∷ "SPLICE_F_" ∷ "FALLOC_FL_" ∷ "STATX_" ∷ "SYNC_FILE_RANGE_"
    ∷ "POSIX_FADV_" ∷ "MADV_" ∷ "SOCKET_URING_" ∷ []

abbrev any_prefix : List String → String → Bool
any_prefix [] name = false
any_prefix (p ∷ ps) name = starts_with name p || any_prefix ps name

abbrev selected : List String → List String
selected [] = []
selected (name ∷ names) =
    let rest = selected names in if any_prefix prefixes name then name ∷ rest else rest

abbrev insert : String → List String → List String
insert name [] = name ∷ []
insert name (n ∷ ns) =
    let rest = insert name ns in if is_le (compare name n) then name ∷ n ∷ ns else n ∷ rest

abbrev sorted : List String → List String
sorted [] = []
sorted (name ∷ names) = insert name (sorted names)

abbrev all_names : List String
all_names =
    map (λ c. c.0) setup_flags
    ++ (map (λ c. c.0) sqe_flags
        ++ (map (λ c. c.0) opcodes
            ++ (map (λ c. c.0) operation_flags ++ map (λ c. c.0) completion_flags_and_advice)))

-- `UAPI_CONSTANT_NAMES`
abbrev uapi_constant_names : List String
uapi_constant_names = sorted (selected all_names)

-- The values of a table are those of `f`, from an index on.
abbrev numbered : (ℕ → ℕ) → ℕ → List (String × ℕ) → Bool
numbered f i [] = true
numbered f i ((name, v) ∷ rest) = (v == f i) && numbered f (suc i) rest

numbered_lem :
    (f : ℕ → ℕ) (i k : ℕ) (table : List (String × ℕ)) (name : String) (v : ℕ)
    → numbered f i table ≡ true
    → get_elem? table k ≡ some (name, v)
    → v ≡ f (i + k)
numbered_lem f i k [] name v h e = cc
numbered_lem f i zero ((n, w) ∷ rest) name v h e = ground arith
numbered_lem f i (suc k) ((n, w) ∷ rest) name v h e =
    numbered_lem f (suc i) k rest name v (ground arith) e ∙ ap f (omega arith)

-- The operations are numbered from 0 in the order of their names.
opcode_at : (k : ℕ) (name : String) (v : ℕ) → get_elem? opcodes k ≡ some (name, v) → v ≡ 0 + k
opcode_at k name v e = numbered_lem (λ i. i) 0 k opcodes name v refl e

-- Each flag of `io_uring_setup`, and each of an entry, is a bit of its own, in order.
setup_flag_at :
    (k : ℕ) (name : String) (v : ℕ) → get_elem? setup_flags k ≡ some (name, v) → v ≡ bit (0 + k)
setup_flag_at k name v e = numbered_lem bit 0 k setup_flags name v refl e

sqe_flag_at :
    (k : ℕ) (name : String) (v : ℕ) → get_elem? sqe_flags k ≡ some (name, v) → v ≡ bit (0 + k)
sqe_flag_at k name v e = numbered_lem bit 0 k sqe_flags name v refl e
