-- ===== src/Abi/Agree.antt =====
-- The `argtypes` of pyuring/native/uring_ctx.py against the prototypes of csrc/uring_wrap.c.
use text.Mathlib.TextEquality.{eq_iff}
use text.Mathlib.Text.{◌==◌ as str_eq}
use mathlib.Core.Path.{subst}
use mathlib.Core.Option.{some-injective}
use pyuring.Prelude.{
  String, Bool, true, false, ◌&&◌, Option, none, some, List, [], ◌∷◌, ◌++◌, ◌==◌, ◌≡◌, refl, arith,
  Bool-cases, inl, inr,
}
use pyuring.Abi.Types.{
  CType, CParam, c_signed, c_unsigned, text_pointer, opaque, pointer, Signature, find, code, c_int,
  c_uint, c_longlong, c_int64, c_uint64, c_size_t, c_void_p, c_char_p, pointer_to,
}
use pyuring.Abi.First.{first_signatures}
use pyuring.Abi.Second.{second_signatures}
use pyuring.Abi.Core.{core_prototypes}
use pyuring.Abi.Prototypes.{file_and_socket_prototypes, message_and_wait_prototypes}

abbrev pub signatures : List (Signature CType)
signatures = first_signatures ++ second_signatures

abbrev pub prototypes : List (Signature CParam)
prototypes = core_prototypes ++ (file_and_socket_prototypes ++ message_and_wait_prototypes)

-- The ctypes type passes what the C parameter takes: the same bits and sign, or a pointer to the
-- same.
abbrev pub agrees : CType → CParam → Bool
agrees c_int (c_signed n) = n == 32
agrees c_uint (c_unsigned n) = n == 32
agrees c_longlong (c_signed n) = n == 64
agrees c_int64 (c_signed n) = n == 64
agrees c_uint64 (c_unsigned n) = n == 64
agrees c_size_t (c_unsigned n) = n == 64
agrees c_void_p text_pointer = true
agrees c_void_p opaque = true
agrees c_void_p (pointer p) = true
agrees c_char_p text_pointer = true
agrees (pointer_to p) (pointer q) = code p == code q
agrees t c = false

abbrev pub agrees_all : List CType → List CParam → Bool
agrees_all [] [] = true
agrees_all [] (c ∷ cs) = false
agrees_all (t ∷ ts) [] = false
agrees_all (t ∷ ts) (c ∷ cs) = agrees t c && agrees_all ts cs

abbrev agrees_found : List CType → Option (List CParam) → Bool
agrees_found ts none = false
agrees_found ts (some cs) = agrees_all ts cs

module _ (table : List (Signature CParam)) where
  -- Every row of a table of `argtypes` agrees with the prototype of its name.
  abbrev table_agrees : List (Signature CType) → Bool
  table_agrees [] = true
  table_agrees (s ∷ ss) = agrees_found s.params (find s.name table) && table_agrees ss

  abbrev HasPrototype : String → List CType → Type 0
  HasPrototype name ts =
      (cs : List CParam) × (find name table ≡ some cs) × (agrees_all ts cs ≡ true)

  agrees_found-HasPrototype :
      (name : String) (ts : List CType) (o : Option (List CParam))
      → find name table ≡ o
      → agrees_found ts o ≡ true
      → HasPrototype name ts
  agrees_found-HasPrototype name ts none e h = cc
  agrees_found-HasPrototype name ts (some cs) e h = (cs, e, h)

  row-HasPrototype :
      (name : String) (ts : List CType) (ss : List (Signature CType))
      → table_agrees ss ≡ true
      → find name ss ≡ some ts
      → HasPrototype name ts
  row-HasPrototype name ts [] h e = cc
  row-HasPrototype name ts (s ∷ ss) h e = elim (Bool-cases (str_eq s.name name)) [
    | inl same ↦ subst (HasPrototype name) (some-injective _ _ (rw same at e)) (
        subst (λ n. HasPrototype n s.params) ((eq_iff s.name name).0 same)
          (agrees_found-HasPrototype s.name s.params (find s.name table) refl (ground arith)))
    | inr other ↦ row-HasPrototype name ts ss (ground arith) (rw other at e)
  ]

all_agree : table_agrees prototypes signatures ≡ true
all_agree = refl

-- Every function of C that pyuring/native/uring_ctx.py gives `argtypes` exists there, and ctypes passes
-- it what its prototype says: as many arguments, integers of the same width and sign, strings as
-- `char *`, and a pointer to the same type or a `c_void_p` where it has a pointer.
pub signatures-HasPrototype :
    (name : String) (ts : List CType)
    → find name signatures ≡ some ts
    → (cs : List CParam) × (find name prototypes ≡ some cs) × (agrees_all ts cs ≡ true)
signatures-HasPrototype name ts e = row-HasPrototype prototypes name ts signatures all_agree e
