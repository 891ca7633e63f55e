-- ===== src/Pool/Indexing.antt =====
-- `UringPool` of pyuring/pool.py: what its constructor makes, and which ring an index names.
use pyuring.Prelude.{
  length-map, sym, ◌/◌, ◌*◌, ◌+◌, ℕ, zero, suc, ◌<◌, List, [], ◌∷◌, none, some, ℤ, pos, negsuc, map,
  length, get_elem?, ◌≡◌, refl, arith,
}
use pyuring.Errors.{Exception, Result, ok, err}
use pyuring.Ctx.State.{UringCtx, CtxArgs, CreateCall, CreateReply}
use pyuring.Ctx.State
use pyuring.Pool.Rings.{place, in_pool, UringPool, make_rings, init, len, floor_mod, getitem, close}

place_ok :
    (r : Result UringCtx) (got : Result (List UringCtx)) (made : List UringCtx) (k : ℕ)
    → ((ds : List UringCtx) → got ≡ ok ds → (made ≡ ds) × (length ds ≡ k))
    → (cs : List UringCtx) → (place r (got, made)).0 ≡ ok cs
    → ((place r (got, made)).1 ≡ cs) × (length cs ≡ suc k)
place_ok (err e) got made k ih cs h = ground arith
place_ok (ok c) (err e) made k ih cs h = ground arith
place_ok (ok c) (ok ds) made k ih cs h = grind (arith, ih ds refl)

make_rings_ok :
    (create : ℕ → CreateCall → CreateReply) (tid : ℕ) (a : CtxArgs) (n : ℕ) (cs : List UringCtx)
    → (make_rings create tid a n).0 ≡ ok cs
    → ((make_rings create tid a n).1 ≡ cs) × (length cs ≡ n)
unfolding make_rings
make_rings_ok create tid a zero cs h = ground arith
make_rings_ok create tid a (suc k) cs h =
    let (got, made) = make_rings create tid a k in
    place_ok (State.init (create k) tid a) got made k (make_rings_ok create tid a k) cs h

-- When the constructor succeeds, the pool has exactly the `n` rings that were made.
init_lem :
    (create : ℕ → CreateCall → CreateReply) (tid : ℕ) (a : CtxArgs) (n : ℤ) (p : UringPool)
    → (init create tid a n).0 ≡ ok p
    → ((init create tid a n).1 ≡ p.rings) × (n ≡ pos (len p)) × (0 < len p)
unfolding init len
init_lem create tid a (negsuc n) p h = ground arith
init_lem create tid a (pos zero) p h = ground arith
init_lem create tid a (pos (suc n)) p h =
    elim (make_rings create tid a (suc n)).0
        as (λ r.
          (r ≡ (make_rings create tid a (suc n)).0)
          → (in_pool r ≡ ok p)
          → ((make_rings create tid a (suc n)).1 ≡ p.rings)
            × (pos (suc n) ≡ pos (length p.rings))
            × (0 < length p.rings)) [
              | err e ↦ λ q g. ground arith
              | ok cs ↦ λ q g. grind (arith, make_rings_ok create tid a (suc n) cs (sym q))
            ]
      refl h

-- When the second of two constructions fails, the first ring stays open and nothing names it.
init_leaks :
    (create : ℕ → CreateCall → CreateReply) (tid : ℕ) (a : CtxArgs) (c : UringCtx) (e : Exception)
    → State.init (create 1) tid a ≡ ok c
    → State.init (create 0) tid a ≡ err e
    → init create tid a (pos 2) ≡ (err e, c ∷ [])
unfolding init make_rings
init_leaks create tid a c e h k = simp (h, k)

closed_ring :
    (cs : List UringCtx) (i : ℕ) (c : UringCtx)
    → get_elem? (map State.close cs) i ≡ some c
    → (c.handle ≡ none) × (c.keepalive ≡ [])
unfolding State.close
closed_ring [] i c h = ground arith
closed_ring (d ∷ ds) zero c h = ground arith
closed_ring (d ∷ ds) (suc i) c h = closed_ring ds i c h

-- `close` leaves no ring in the pool and closes every one that was there, the pins included.
close_rings :
    (p : UringPool) (i : ℕ) (c : UringCtx)
    → get_elem? (close p).1 i ≡ some c
    → (c.handle ≡ none) × (c.keepalive ≡ []) × (len (close p).0 ≡ 0) × (length (close p).1 ≡ len p)
unfolding close len
close_rings p i c h =
    let (a, b) = closed_ring p.rings i c h in (a, b, refl, length-map p.rings State.close)

floor_mod-< : (i : ℤ) (m : ℕ) → floor_mod i (suc m) < suc m
unfolding floor_mod
floor_mod-< (pos n) m = omega arith
floor_mod-< (negsuc n) m = omega arith

-- `i` and `floor_mod i m` differ by a multiple of `m`.
floor_mod-congruent : (n m : ℕ) → suc n + floor_mod (negsuc n) (suc m) ≡ suc m * suc (n / suc m)
unfolding floor_mod
floor_mod-congruent n m = omega arith

get_elem?-< :
    {A : Type 0} (xs : List A) (i : ℕ) → i < length xs → (x : A) × (get_elem? xs i ≡ some x)
get_elem?-< [] i h = absurd (omega arith)
get_elem?-< (x ∷ xs) zero h = (x, refl)
get_elem?-< (x ∷ xs) (suc i) h = get_elem?-< xs i (omega arith)

getitem_rings :
    (i : ℤ) (cs : List UringCtx)
    → 0 < length cs
    → (c : UringCtx) × (getitem i (record { rings = cs }) ≡ ok c)
      × (get_elem? cs (floor_mod i (length cs)) ≡ some c)
unfolding getitem len
getitem_rings i [] h = absurd (omega arith)
getitem_rings i (c ∷ cs) h =
    let (x, e) = get_elem?-< (c ∷ cs) (floor_mod i (suc (length cs))) (floor_mod-< i (length cs)) in
    (x, ground arith, e)

-- On a pool that is not empty every index, negative ones included, names a ring of the list.
getitem_lem :
    (i : ℤ) (p : UringPool)
    → 0 < len p
    → (c : UringCtx) × (getitem i p ≡ ok c) × (get_elem? p.rings (floor_mod i (len p)) ≡ some c)
unfolding len
getitem_lem i p h = getitem_rings i p.rings h

-- A pool that could be made holds as many rings as were asked for, one at least, and these are all
-- that were created. Every index, negative ones and those past the end included, gives one of them,
-- the one at the index modulo their number. `close` leaves the pool empty and closes as many rings.
pool_lem :
    (create : ℕ → CreateCall → CreateReply) (tid : ℕ) (a : CtxArgs) (n : ℤ) (p : UringPool)
    → (init create tid a n).0 ≡ ok p
    → ((init create tid a n).1 ≡ p.rings)
      × (n ≡ pos (len p))
      × (0 < len p)
      × ((i : ℤ)
          → (c : UringCtx) × (getitem i p ≡ ok c)
            × (get_elem? p.rings (floor_mod i (len p)) ≡ some c))
      × (len (close p).0 ≡ 0)
      × (length (close p).1 ≡ len p)
unfolding close len
pool_lem create tid a n p h =
    let (made, number, positive) = init_lem create tid a n p h in
    (made, number, positive, λ i. getitem_lem i p positive, refl, length-map p.rings State.close)
