-- ===== src/Abi/Tests.antt =====
-- The boundary of Python and C at concrete arguments.
use pyuring.Prelude.{◌≡◌, refl, some, List, [], ◌∷◌, true}
use pyuring.Abi.Types.{find, CParam, c_void_p}
use pyuring.Abi.Agree.{signatures, prototypes, agrees_all, signatures-HasPrototype}

nop_signature : find "uring_nop_sync" signatures ≡ some (c_void_p ∷ [])
nop_signature = refl

signatures-HasPrototype_example :
    (cs : List CParam) × (find "uring_nop_sync" prototypes ≡ some cs)
    × (agrees_all (c_void_p ∷ []) cs ≡ true)
signatures-HasPrototype_example =
    signatures-HasPrototype "uring_nop_sync" (c_void_p ∷ []) nop_signature
