-- ===== src/BufferPool/Methods.antt =====
-- The class `BufferPool` of pyuring/native/buffer_pool.py. ctypes passes a count, an index and a
-- size as a `c_uint`, which keeps the low 32 bits.
use pyuring.Errno
use pyuring.Prelude.{ℕ, String, Bool, Option, none, some, List, ℤ, pos, if◌then◌else◌, ◌==◌, take}
use pyuring.Errors.{
  Exception, Result, Action, nowhere, ok, err, uring_error, make_error, raise_for_neg_errno,
}
use pyuring.Ctx.State.{mask32}
use pyuring.BufferPool.Native.{NativePool, pool_create, pool_resize, pool_get, pool_set_size}

-- `_pool` is none when it is closed.
pub record BufferPool : Type 0 where
  pub pool : Option NativePool

abbrev pub pool_error : String → String → Exception
pool_error operation detail = uring_error (
    make_error (pos Errno.einval) operation
      (record { detail = some detail; filename = none; at_offset = none; of_length = none }))

-- What `_ensure_open` raises, through `_pool_live`, when there is no pool.
abbrev pub pool_closed : Exception
pool_closed =
    pool_error "BufferPool"
      "This BufferPool is closed; create a new pool or avoid using it after close()."

abbrev pub opened : ℕ → Option NativePool → Result BufferPool
opened errnum none = err (
    uring_error (
      make_error (pos (if errnum == 0 then Errno.enomem else errnum)) "uring_buffer_pool_create"
        nowhere))
opened errnum (some p) = ok (record { pool = some p })

-- `create`; `errnum` is what `ctypes.get_errno()` says.
unfoldable pub create : Bool → (ℕ → Option (List ℕ)) → ℕ → ℤ → ℤ → Result BufferPool
create calloc alloc errnum count size =
    opened errnum (pool_create calloc alloc (mask32 count) (mask32 size))

-- `_pool_live`, a native call that changes the pool, and the test of its result.
abbrev call_native : (NativePool → ℤ × NativePool) → String → Action BufferPool (Unit {0})
unfolding raise_for_neg_errno
call_native f operation b = elim b.pool [
  | none ↦ (err pool_closed, b)
  | some p ↦ raise_for_neg_errno (f p).0 operation nowhere (record b { pool = some (f p).1 })
]

-- `resize`
unfoldable pub resize : Option (List ℕ) → ℤ → ℤ → Action BufferPool (Unit {0})
unfolding raise_for_neg_errno mask32 pool_resize
resize alloc index new_size =
    call_native (pool_resize alloc (mask32 index) (mask32 new_size)) "uring_buffer_pool_resize"

-- `get`: `ctypes.string_at` reads `size` bytes.
unfoldable pub get : ℤ → BufferPool → Result (List ℕ)
get index b = elim b.pool [
  | none ↦ err pool_closed
  | some p ↦ elim (pool_get (mask32 index) p) [
    | none ↦ err (pool_error "uring_buffer_pool_get" "invalid buffer index")
    | some (memory, size) ↦ ok (take size memory)
  ]
]

-- `get_ptr`: the block stands for its address.
unfoldable pub get_ptr : ℤ → BufferPool → Result (List ℕ × ℕ)
get_ptr index b = elim b.pool [
  | none ↦ err pool_closed
  | some p ↦ elim (pool_get (mask32 index) p) [
    | none ↦ err (pool_error "uring_buffer_pool_get" "invalid buffer index")
    | some found ↦ ok found
  ]
]

-- `set_size`
unfoldable pub set_size : ℤ → ℤ → Action BufferPool (Unit {0})
unfolding raise_for_neg_errno mask32 pool_set_size
set_size index size =
    call_native (pool_set_size (mask32 index) (mask32 size)) "uring_buffer_pool_set_size"

-- `close`, which `__exit__` calls.
unfoldable pub close : BufferPool → BufferPool
close b = record b { pool = none }
