-- ===== src/BufferPool/Native.antt =====
-- `uring_buffer_pool` of csrc/uring_wrap.c. What `calloc` and `posix_memalign` answer is an argument;
-- a fresh block comes with the bytes that happen to stand in it.
use pyuring.Prelude.{
  ℕ, zero, suc, min, ◌++◌, Bool, true, false, Option, none, some, List, [], ◌∷◌, ℤ, pos, negsuc,
  leb, ltb, if◌then◌else◌, get_elem?, set, take, drop, max,
}

-- One slot of the three arrays `buffers`, `buffer_sizes` and `buffer_capacities`.
pub record Slot : Type 0 where
  pub memory : List ℕ
  pub size : ℕ
  pub capacity : ℕ

-- `count` is the length of `slots`.
pub record NativePool : Type 0 where
  pub slots : List Slot
  pub max_capacity : ℕ

-- One slot in front of those behind it; a block that is refused ends the loop.
abbrev pub next_slot : ℕ → Option (List ℕ) → Option (List Slot) → Option (List Slot)
next_slot size none rest = none
next_slot size (some block) none = none
next_slot size (some block) (some slots) =
    some (record { memory = block; size = 0; capacity = size } ∷ slots)

-- The loop of `uring_buffer_pool_create` from the slot `i` on, with `k` slots left.
unfoldable pub make_slots : (ℕ → Option (List ℕ)) → ℕ → ℕ → ℕ → Option (List Slot)
make_slots alloc size i zero = some []
make_slots alloc size i (suc k) = next_slot size (alloc i) (make_slots alloc size (suc i) k)

abbrev pub from_slots : ℕ → Option (List Slot) → Option NativePool
from_slots size none = none
from_slots size (some slots) = some (record { slots = slots; max_capacity = size })

-- `uring_buffer_pool_create`; `calloc` is whether its calls of `calloc` succeed.
unfoldable pub pool_create : Bool → (ℕ → Option (List ℕ)) → ℕ → ℕ → Option NativePool
unfolding make_slots
pool_create false alloc count size = none
pool_create true alloc count size = from_slots size (make_slots alloc size 0 count)

-- The slot behind a `posix_memalign` of `new_size` bytes that gave `block`.
abbrev pub moved : ℕ → List ℕ → Slot → Slot
moved new_size block s =
    let copy_size = min s.size new_size in
    record {
      memory = take copy_size s.memory ++ drop copy_size block;
      size = new_size;
      capacity = new_size;
    }

-- `-EINVAL`, `-ENOMEM`
abbrev pub minus_einval : ℤ
minus_einval = negsuc 21

abbrev pub minus_enomem : ℤ
minus_enomem = negsuc 11

-- The reallocation in `uring_buffer_pool_resize`
abbrev pub grown : Option (List ℕ) → ℕ → ℕ → Slot → NativePool → ℤ × NativePool
grown none index new_size s p = (minus_enomem, p)
grown (some block) index new_size s p = (
  pos 0,
  record {
    slots = set p.slots index (moved new_size block s);
    max_capacity = max new_size p.max_capacity;
  },
)

abbrev pub resize_slot : Option (List ℕ) → ℕ → ℕ → NativePool → Option Slot → ℤ × NativePool
resize_slot alloc index new_size p none = (minus_einval, p)
resize_slot alloc index new_size p (some s) =
    if leb new_size s.capacity
    then (pos 0, record p { slots = set p.slots index (record s { size = new_size }) })
    else grown alloc index new_size s p

-- `uring_buffer_pool_resize`
unfoldable pub pool_resize : Option (List ℕ) → ℕ → ℕ → NativePool → ℤ × NativePool
pool_resize alloc index new_size p = resize_slot alloc index new_size p (get_elem? p.slots index)

-- `uring_buffer_pool_get`: NULL, or the memory with the size.
unfoldable pub pool_get : ℕ → NativePool → Option (List ℕ × ℕ)
pool_get index p = elim (get_elem? p.slots index) [ none ↦ none | some s ↦ some (s.memory, s.size) ]

abbrev pub set_slot_size : ℕ → ℕ → NativePool → Option Slot → ℤ × NativePool
set_slot_size index size p none = (minus_einval, p)
set_slot_size index size p (some s) =
    if ltb s.capacity size
    then (minus_einval, p)
    else (pos 0, record p { slots = set p.slots index (record s { size = size }) })

-- `uring_buffer_pool_set_size`
unfoldable pub pool_set_size : ℕ → ℕ → NativePool → ℤ × NativePool
pool_set_size index size p = set_slot_size index size p (get_elem? p.slots index)
