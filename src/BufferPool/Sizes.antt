-- ===== src/BufferPool/Sizes.antt =====
-- Sizes and capacities of the pool of csrc/uring_wrap.c, and what a resize keeps.
use pyuring.Prelude.{
  ltb, leb→le, Bool-cases, inr, inl, Option-cases, ℕ, zero, suc, ◌≤◌, ◌≡◌, refl, min, ◌++◌, Option,
  none, some, List, [], ◌∷◌, leb, length, get_elem?, set, take, drop, length-take, length-drop,
  length-append, arith,
}
use mathlib.Core.Path.{subst, ap}
use mathlib.Core.Option.{some-injective}
use pyuring.BufferPool.Native.{
  next_slot, grown, NativePool, Slot, moved, make_slots, pool_resize, pool_set_size,
}

-- A slot's block has its capacity, and its size is within.
pub record FitsSlot (s : Slot) : Type 0 where
  pub block : length s.memory ≡ s.capacity
  pub within : s.size ≤ s.capacity

abbrev pub Fits : List Slot → Type 0
Fits [] = Unit
Fits (s ∷ ss) = FitsSlot s × Fits ss

-- What `posix_memalign` gives has the size that was asked for.
abbrev pub Gives : Option (List ℕ) → ℕ → Type 0
Gives none n = Unit
Gives (some block) n = length block ≡ n

Fits-set : (ss : List Slot) (i : ℕ) (s : Slot) → Fits ss → FitsSlot s → Fits (set ss i s)
Fits-set [] i s f g = tt
Fits-set (t ∷ ts) zero s f g = (g, f.1)
Fits-set (t ∷ ts) (suc i) s f g = (f.0, Fits-set ts i s f.1 g)

pub Fits-get : (ss : List Slot) (i : ℕ) (s : Slot) → Fits ss → get_elem? ss i ≡ some s → FitsSlot s
Fits-get [] i s f h = ground arith
Fits-get (t ∷ ts) zero s f h = subst FitsSlot (some-injective _ _ h) f.0
Fits-get (t ∷ ts) (suc i) s f h = Fits-get ts i s f.1 h

pub moved-FitsSlot :
    (n : ℕ) (block : List ℕ) (s : Slot) → FitsSlot s → length block ≡ n → FitsSlot (moved n block s)
moved-FitsSlot n block s f h = record { block = moved_block; within = omega arith }
  where
    moved_block : length (take (min s.size n) s.memory ++ drop (min s.size n) block) ≡ n
    moved_block =
        rw
          (
            length-append (take (min s.size n) s.memory) (drop (min s.size n) block),
            length-take (min s.size n) s.memory,
            length-drop (min s.size n) block,
            f.block,
            h,
          )
          (grind (arith, f.within))

pub make_slots-Fits :
    (alloc : ℕ → Option (List ℕ)) (size i k : ℕ) (ss : List Slot)
    → ((j : ℕ) → Gives (alloc j) size)
    → make_slots alloc size i k ≡ some ss
    → Fits ss × (length ss ≡ k)
unfolding make_slots
make_slots-Fits alloc size i zero ss g h =
    subst (λ xs. Fits xs × (length xs ≡ 0)) (some-injective _ _ h) (tt, refl)
make_slots-Fits alloc size i (suc k) ss g h =
    go (alloc i) (make_slots alloc size (suc i) k) (g i)
      (λ ts. make_slots-Fits alloc size (suc i) k ts g) ss h
  where
    go :
        (a : Option (List ℕ)) (rest : Option (List Slot))
        → Gives a size
        → ((ts : List Slot) → rest ≡ some ts → Fits ts × (length ts ≡ k))
        → (xs : List Slot) → next_slot size a rest ≡ some xs
        → Fits xs × (length xs ≡ suc k)
    go none rest b ih xs e = ground arith
    go (some block) none b ih xs e = ground arith
    go (some block) (some ts) b ih xs e =
        let (f, l) = ih ts refl in
        subst (λ ys. Fits ys × (length ys ≡ suc k)) (some-injective _ _ e)
          ((record { block = b; within = omega arith }, f), ap suc l)

pub resize-Fits :
    (alloc : Option (List ℕ)) (i n : ℕ) (p : NativePool)
    → Gives alloc n
    → Fits p.slots
    → Fits (pool_resize alloc i n p).1.slots
unfolding pool_resize
resize-Fits alloc i n p g f = elim (Option-cases (get_elem? p.slots i)) [
  | inl e ↦ rw e f
  | inr (s, e) ↦ elim (Bool-cases (leb n s.capacity)) [
    | inl b ↦
        rw (e, b)
          (Fits-set p.slots i (record s { size = n }) f
            (record { block = (Fits-get p.slots i s f e).block; within = leb→le n s.capacity b }))
    | inr b ↦ rw (e, b) (grow alloc s g (Fits-get p.slots i s f e))
  ]
]
  where
    grow :
        (a : Option (List ℕ)) (s : Slot) → Gives a n → FitsSlot s → Fits (grown a i n s p).1.slots
    grow none s g h = f
    grow (some block) s g h = Fits-set p.slots i (moved n block s) f (moved-FitsSlot n block s h g)

pub set_size-Fits : (i n : ℕ) (p : NativePool) → Fits p.slots → Fits (pool_set_size i n p).1.slots
unfolding pool_set_size
set_size-Fits i n p f = elim (Option-cases (get_elem? p.slots i)) [
  | inl e ↦ rw e f
  | inr (s, e) ↦ elim (Bool-cases (ltb s.capacity n)) [
    | inl b ↦ rw (e, b) f
    | inr b ↦
        rw (e, b)
          (Fits-set p.slots i (record s { size = n }) f
            (record { block = (Fits-get p.slots i s f e).block; within = ground arith }))
  ]
]
