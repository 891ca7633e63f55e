-- ===== src/BufferPool/Tests.antt =====
-- The pool of buffers at concrete arguments.
use pyuring.Prelude.{
  ℕ, ◌≤◌, ◌≡◌, refl, List, [], ◌∷◌, Option, some, pos, true, length, get_elem?, arith,
}
use pyuring.Errors.{raise_for_neg_errno, ok}
use pyuring.Ctx.State.{mask32}
use pyuring.BufferPool.Native.{make_slots, NativePool, Slot, pool_resize, pool_create, pool_get}
use pyuring.BufferPool.Methods.{BufferPool, create, get, get_ptr, resize}
use pyuring.BufferPool.Sizes.{FitsSlot, Gives}
use pyuring.BufferPool.History.{Call, resizing, run, GivesAll, run-get}
use pyuring.BufferPool.Grow.{Keeps, pool_resize-Keeps}

abbrev block_of_2 : ℕ → Option (List ℕ)
block_of_2 j = some (0 ∷ 0 ∷ [])

abbrev slot_of_2 : Slot
slot_of_2 = record { memory = 0 ∷ 0 ∷ []; size = 0; capacity = 2 }

abbrev pool_of_1 : BufferPool
pool_of_1 = record { pool = some (record { slots = slot_of_2 ∷ []; max_capacity = 2 }) }

abbrev grow_to_3 : List Call
grow_to_3 = resizing (some (5 ∷ 6 ∷ 7 ∷ [])) (pos 0) (pos 3) ∷ []

blocks_fit : (j : ℕ) → Gives (block_of_2 j) (mask32 (pos 2))
unfolding mask32
blocks_fit j = refl

created_one : create true block_of_2 0 (pos 1) (pos 2) ≡ ok pool_of_1
unfolding create pool_create mask32 make_slots
created_one = refl

grow_to_3-Gives : GivesAll grow_to_3
unfolding mask32
grow_to_3-Gives = (refl, tt)

got : get (pos 0) (run grow_to_3 pool_of_1) ≡ ok (5 ∷ 6 ∷ 7 ∷ [])
unfolding get resize pool_resize pool_get mask32 raise_for_neg_errno
got = refl

pointed : get_ptr (pos 0) (run grow_to_3 pool_of_1) ≡ ok (5 ∷ 6 ∷ 7 ∷ [], 3)
unfolding get_ptr resize pool_resize pool_get mask32 raise_for_neg_errno
pointed = refl

abbrev three_bytes : List ℕ
three_bytes = 5 ∷ 6 ∷ 7 ∷ []

run-get_example : (length three_bytes ≡ 3) × (3 ≤ length three_bytes)
run-get_example =
    run-get true block_of_2 0 (pos 1) (pos 2) pool_of_1 grow_to_3 (pos 0) (5 ∷ 6 ∷ 7 ∷ [])
      (5 ∷ 6 ∷ 7 ∷ []) 3 blocks_fit created_one grow_to_3-Gives got pointed

-- A slot with one byte in use.
abbrev used : Slot
used = record { memory = 8 ∷ 9 ∷ []; size = 1; capacity = 2 }

abbrev used_pool : NativePool
used_pool = record { slots = used ∷ []; max_capacity = 2 }

abbrev block_of_3 : Option (List ℕ)
block_of_3 = some (5 ∷ 6 ∷ 7 ∷ [])

used-FitsSlot : FitsSlot used
used-FitsSlot = record { block = refl; within = omega arith }

resize_returns : (pool_resize block_of_3 0 3 used_pool).0 ≡ pos 0
unfolding pool_resize
resize_returns = refl

pool_resize-Keeps_example :
    (t : Slot) × (get_elem? (pool_resize block_of_3 0 3 used_pool).1.slots 0 ≡ some t)
    × Keeps 3 used t
pool_resize-Keeps_example =
    pool_resize-Keeps block_of_3 0 3 used_pool used refl used-FitsSlot refl resize_returns
