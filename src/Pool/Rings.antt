-- ===== src/Pool/Rings.antt =====
-- `UringPool` of pyuring/pool.py: the rings it makes, hands out and closes.
use pyuring.Prelude.{
  ℕ, zero, suc, ◌-◌, ◌%◌, List, [], ◌∷◌, none, some, ℤ, pos, negsuc, map, length, get_elem?,
}
use pyuring.Errors.{Result, ok, err, value_error, zero_division, index_error}
use pyuring.Ctx.State.{UringCtx, CtxArgs, CreateCall, CreateReply}
use pyuring.Ctx.State

pub record UringPool : Type 0 where
  pub rings : List UringCtx

-- What one ring adds to the rings behind it.
abbrev pub place :
    Result UringCtx
    → Result (List UringCtx) × List UringCtx
    → Result (List UringCtx) × List UringCtx
place (err e) rest = (err e, [])
place (ok c) (err e, made) = (err e, c ∷ made)
place (ok c) (ok cs, made) = (ok (c ∷ cs), c ∷ made)

-- The list comprehension of `__init__`: `n` rings, made one after the other in the thread `tid`.
-- `create k` is what the native constructor answers with `k` rings still to make. It gives what the
-- comprehension raises, or the list; and the rings that exist when it ends.
unfoldable pub make_rings :
    (ℕ → CreateCall → CreateReply) → ℕ → CtxArgs → ℕ → Result (List UringCtx) × List UringCtx
make_rings create tid a zero = (ok [], [])
make_rings create tid a (suc k) = place (State.init (create k) tid a) (make_rings create tid a k)

abbrev pub in_pool : Result (List UringCtx) → Result UringPool
in_pool (err e) = err e
in_pool (ok cs) = ok (record { rings = cs })

-- `__init__`
unfoldable pub init :
    (ℕ → CreateCall → CreateReply) → ℕ → CtxArgs → ℤ → Result UringPool × List UringCtx
init create tid a (negsuc n) = (err value_error, [])
init create tid a (pos zero) = (err value_error, [])
init create tid a (pos (suc n)) =
    let (got, made) = make_rings create tid a (suc n) in (in_pool got, made)

-- `__len__`
unfoldable pub len : UringPool → ℕ
len p = length p.rings

-- `index % len(self._rings)` of Python, whose remainder has the divisor's sign.
unfoldable pub floor_mod : ℤ → ℕ → ℕ
floor_mod (pos n) m = n % m
floor_mod (negsuc n) m = m - suc (n % m)

-- `__getitem__`
unfoldable pub getitem : ℤ → UringPool → Result UringCtx
unfolding floor_mod len
getitem index p = elim p.rings [
  | [] ↦ err zero_division
  | c ∷ cs ↦ elim (get_elem? (c ∷ cs) (floor_mod index (suc (length cs)))) [
    | none ↦ err index_error
    | some r ↦ ok r
  ]
]

-- `close`: the rings it closed, as they are then, and the pool.
unfoldable pub close : UringPool → UringPool × List UringCtx
close p = (record p { rings = [] }, map State.close p.rings)
