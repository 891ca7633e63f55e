-- ===== src/BufferPool/History.antt =====
-- Histories of calls on a `BufferPool` of pyuring/native/buffer_pool.py.
use mathlib.Core.Path.{subst}
use pyuring.Prelude.{
  ℕ, ◌≤◌, ◌≡◌, refl, String, Bool, true, false, Option, none, some, List, [], ◌∷◌, ℤ, pos, negsuc,
  inl, inr, length, get_elem?, length-take, Option-cases, arith,
}
use pyuring.Errors.{Result, nowhere, ok, err, raise_for_neg_errno}
use pyuring.Ctx.State.{mask32}
use pyuring.BufferPool.Native.{
  NativePool, Slot, make_slots, from_slots, pool_create, pool_resize, pool_get, pool_set_size,
}
use pyuring.BufferPool.Methods.{BufferPool, opened, create, resize, get, set_size, close, get_ptr}
use pyuring.BufferPool.Sizes.{Fits, Gives, Fits-get, make_slots-Fits, resize-Fits, set_size-Fits}

-- One call of a method that changes the pool, with what `posix_memalign` answers.
pub data Call : Type 0 where
  resizing : Option (List ℕ) → ℤ → ℤ → Call
  setting_size : ℤ → ℤ → Call
  closing : Call

abbrev pub step : Call → BufferPool → BufferPool
step (resizing alloc index size) b = (resize alloc index size b).1
step (setting_size index size) b = (set_size index size b).1
step closing b = close b

abbrev pub run : List Call → BufferPool → BufferPool
run [] b = b
run (k ∷ ks) b = run ks (step k b)

abbrev pub GivesAll : List Call → Type 0
GivesAll [] = Unit
GivesAll (resizing alloc index size ∷ ks) = Gives alloc (mask32 size) × GivesAll ks
GivesAll (k ∷ ks) = GivesAll ks

-- An open pool that fits, or a closed one.
abbrev pub FitsOption : Option NativePool → Type 0
FitsOption none = Unit
FitsOption (some p) = Fits p.slots

raise-keeps :
    {S : Type 0} (ret : ℤ) (operation : String) (s : S)
    → (raise_for_neg_errno ret operation nowhere s).1 ≡ s
unfolding raise_for_neg_errno
raise-keeps (pos n) operation s = refl
raise-keeps (negsuc n) operation s = refl

resize_pool-Fits :
    (alloc : Option (List ℕ)) (index size : ℤ) (o : Option NativePool)
    → Gives alloc (mask32 size)
    → FitsOption o
    → FitsOption (resize alloc index size (record { pool = o })).1.pool
unfolding resize
resize_pool-Fits alloc index size none g f = tt
resize_pool-Fits alloc index size (some p) g f =
    let q = pool_resize alloc (mask32 index) (mask32 size) p in
    rw (raise-keeps {S = BufferPool} q.0 "uring_buffer_pool_resize" (record { pool = some q.1 }))
      (resize-Fits alloc (mask32 index) (mask32 size) p g f)

set_size_pool-Fits :
    (index size : ℤ) (o : Option NativePool)
    → FitsOption o
    → FitsOption (set_size index size (record { pool = o })).1.pool
unfolding set_size
set_size_pool-Fits index size none f = tt
set_size_pool-Fits index size (some p) f =
    let q = pool_set_size (mask32 index) (mask32 size) p in
    rw (raise-keeps {S = BufferPool} q.0 "uring_buffer_pool_set_size" (record { pool = some q.1 }))
      (set_size-Fits (mask32 index) (mask32 size) p f)

step-Fits :
    (k : Call) (ks : List Call) (b : BufferPool)
    → GivesAll (k ∷ ks)
    → FitsOption b.pool
    → FitsOption (step k b).pool × GivesAll ks
unfolding close
step-Fits (resizing alloc index size) ks b g f =
    (resize_pool-Fits alloc index size b.pool g.0 f, g.1)
step-Fits (setting_size index size) ks b g f = (set_size_pool-Fits index size b.pool f, g)
step-Fits closing ks b g f = (tt, g)

run-Fits :
    (ks : List Call) (b : BufferPool) → GivesAll ks → FitsOption b.pool → FitsOption (run ks b).pool
run-Fits [] b g f = f
run-Fits (k ∷ ks) b g f = let (f', g') = step-Fits k ks b g f in run-Fits ks (step k b) g' f'

-- Of what `create` gives: the pool, when there is one, fits.
abbrev Sound : Result BufferPool → Type 0
Sound (ok b) = FitsOption b.pool
Sound (err e) = Unit

opened-Sound :
    (e size : ℕ) (o : Option (List Slot))
    → ((ss : List Slot) → o ≡ some ss → Fits ss)
    → Sound (opened e (from_slots size o))
opened-Sound e size none f = tt
opened-Sound e size (some ss) f = f ss refl

create-Sound :
    (calloc : Bool) (alloc : ℕ → Option (List ℕ)) (e : ℕ) (count size : ℤ)
    → ((j : ℕ) → Gives (alloc j) (mask32 size))
    → Sound (create calloc alloc e count size)
unfolding create pool_create
create-Sound false alloc e count size g = tt
create-Sound true alloc e count size g =
    let slots = make_slots alloc (mask32 size) 0 (mask32 count) in
    opened-Sound e (mask32 size) slots
      (λ ss h. (make_slots-Fits alloc (mask32 size) 0 (mask32 count) ss g h).0)

create-Fits :
    (calloc : Bool) (alloc : ℕ → Option (List ℕ)) (e : ℕ) (count size : ℤ) (b : BufferPool)
    → ((j : ℕ) → Gives (alloc j) (mask32 size))
    → create calloc alloc e count size ≡ ok b
    → FitsOption b.pool
create-Fits calloc alloc e count size b g h =
    subst Sound h (create-Sound calloc alloc e count size g)

get-within :
    (o : Option NativePool) (index : ℤ) (content memory : List ℕ) (n : ℕ)
    → FitsOption o
    → get index (record { pool = o }) ≡ ok content
    → get_ptr index (record { pool = o }) ≡ ok (memory, n)
    → (length content ≡ n) × (n ≤ length memory)
unfolding get get_ptr pool_get
get-within none index content memory n f g h = ground arith
get-within (some p) index content memory n f g h =
    elim (Option-cases (get_elem? p.slots (mask32 index))) [
      | inl e ↦ ground arith
      | inr (s, e) ↦
          let fs = Fits-get p.slots (mask32 index) s f e in
          grind (arith, fs.block, fs.within, length-take s.size s.memory)
    ]

-- In every history of a pool, as long as each block that the allocator gives has the length that was
-- asked for, the bytes that `get` copies are as many as the size that `get_ptr` reports, and lie
-- within the block.
pub run-get :
    (calloc : Bool) (alloc : ℕ → Option (List ℕ)) (e : ℕ) (count size : ℤ) (b : BufferPool)
    (ks : List Call) (index : ℤ) (content memory : List ℕ) (n : ℕ)
    → ((j : ℕ) → Gives (alloc j) (mask32 size))
    → create calloc alloc e count size ≡ ok b
    → GivesAll ks
    → get index (run ks b) ≡ ok content
    → get_ptr index (run ks b) ≡ ok (memory, n)
    → (length content ≡ n) × (n ≤ length memory)
run-get calloc alloc e count size b ks index content memory n g c a h k =
    get-within (run ks b).pool index content memory n
      (run-Fits ks b a (create-Fits calloc alloc e count size b g c)) h k
