-- ===== src/BufferPool/Grow.antt =====
-- What `resize` of pyuring/native/buffer_pool.py keeps.
use mathlib.Core.Path.{sym, ap}
use pyuring.Prelude.{
  ℕ, zero, suc, ◌≤◌, min, ◌≡◌, refl, ◌++◌, Option, none, some, List, [], ◌∷◌, pos, inl, inr, leb,
  leb→le, length, get_elem?, set, take, drop, length-take, Bool-cases, arith,
}
use pyuring.BufferPool.Native.{grown, NativePool, Slot, moved, pool_resize}
use pyuring.BufferPool.Sizes.{Gives, FitsSlot, moved-FitsSlot}

take-all : (xs : List ℕ) → take (length xs) xs ≡ xs
take-all [] = refl
take-all (x ∷ xs) = ap (◌∷◌ x) (take-all xs)

min-suc : (m n : ℕ) → min (suc m) (suc n) ≡ suc (min m n)
min-suc m n = omega arith

min_zero : (n : ℕ) → min 0 n ≡ 0
min_zero n = omega arith

min-suc_zero : (m : ℕ) → min (suc m) 0 ≡ 0
min-suc_zero m = omega arith

take-take : (m n : ℕ) (xs : List ℕ) → take m (take n xs) ≡ take (min m n) xs
take-take zero n xs = rw (min_zero n) refl
take-take (suc m) zero xs = rw (min-suc_zero m) refl
take-take (suc m) (suc n) [] = rw (min-suc m n) refl
take-take (suc m) (suc n) (x ∷ xs) = rw (min-suc m n) (ap (◌∷◌ x) (take-take m n xs))

take-append : (n : ℕ) (xs ys : List ℕ) → length xs ≡ n → take n (xs ++ ys) ≡ xs
take-append zero [] ys h = refl
take-append zero (x ∷ xs) ys h = absurd (omega arith)
take-append (suc n) [] ys h = absurd (omega arith)
take-append (suc n) (x ∷ xs) ys h = ap (◌∷◌ x) (take-append n xs ys (omega arith))

take-length : (n : ℕ) (xs : List ℕ) → length xs ≡ n → take n xs ≡ xs
take-length n xs h = rw (sym h) (take-all xs)

get_elem?-set :
    (ss : List Slot) (i : ℕ) (s t : Slot)
    → get_elem? ss i ≡ some s
    → get_elem? (set ss i t) i ≡ some t
get_elem?-set [] i s t h = ground arith
get_elem?-set (r ∷ rs) zero s t h = refl
get_elem?-set (r ∷ rs) (suc i) s t h = get_elem?-set rs i s t h

-- The bytes of a slot that the size covers.
abbrev pub bytes_of : Slot → List ℕ
bytes_of s = take s.size s.memory

-- `t` has the bytes of `s` up to the new size `n`, and is of that size.
abbrev pub Keeps : ℕ → Slot → Slot → Type 0
Keeps n s t = (take (min s.size n) (bytes_of t) ≡ take n (bytes_of s)) × (length (bytes_of t) ≡ n)

min_comm : (m n : ℕ) → min m n ≡ min n m
min_comm m n = omega arith

shrink-Keeps : (n : ℕ) (s : Slot) → FitsSlot s → n ≤ s.capacity → Keeps n s (record s { size = n })
shrink-Keeps n s f b = (
  rw (take-take (min s.size n) n s.memory, take-take n s.size s.memory, min_absorb) refl,
  rw (length-take n s.memory, f.block) (omega arith),
)
  where
    min_absorb : min (min s.size n) n ≡ min n s.size
    min_absorb = omega arith

moved-Keeps :
    (n : ℕ) (block : List ℕ) (s : Slot)
    → FitsSlot s
    → length block ≡ n
    → Keeps n s (moved n block s)
moved-Keeps n block s f h = (
  rw (whole, take-take n s.size s.memory, min_comm n s.size)
      (take-append (min s.size n) (take (min s.size n) s.memory) (drop (min s.size n) block) kept),
  rw whole (moved-FitsSlot n block s f h).block,
)
  where
    whole : take n (moved n block s).memory ≡ (moved n block s).memory
    whole = take-length n (moved n block s).memory (moved-FitsSlot n block s f h).block

    kept : length (take (min s.size n) s.memory) ≡ min s.size n
    kept = rw (length-take (min s.size n) s.memory, f.block) (omega (arith, f.within))

-- `uring_buffer_pool_resize` that returns 0 leaves a slot of the new size with the old bytes.
pub pool_resize-Keeps :
    (alloc : Option (List ℕ)) (i n : ℕ) (p : NativePool) (s : Slot)
    → get_elem? p.slots i ≡ some s
    → FitsSlot s
    → Gives alloc n
    → (pool_resize alloc i n p).0 ≡ pos 0
    → (t : Slot) × (get_elem? (pool_resize alloc i n p).1.slots i ≡ some t) × Keeps n s t
unfolding pool_resize
pool_resize-Keeps alloc i n p s e f g h = elim (Bool-cases (leb n s.capacity)) [
  | inl b ↦
      let t = record s { size = n } in
      (t, rw (e, b) (get_elem?-set p.slots i s t e), shrink-Keeps n s f (leb→le n s.capacity b))
  | inr b ↦ rw (e, b) (grow alloc g (rw (e, b) at h))
]
  where
    grow :
        (a : Option (List ℕ))
        → Gives a n
        → (grown a i n s p).0 ≡ pos 0
        → (t : Slot) × (get_elem? (grown a i n s p).1.slots i ≡ some t) × Keeps n s t
    grow none g h = ground arith
    grow (some block) g h =
        (moved n block s, get_elem?-set p.slots i s (moved n block s) e, moved-Keeps n block s f g)
