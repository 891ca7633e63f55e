-- ===== src/Structs.antt =====
-- pyuring/native/structs.py: the structures that ctypes lays out by its rule for native alignment. The
-- types of their fields are aligned to their size.
use pyuring.Prelude.{ℕ, ◌+◌, ◌-◌, ◌%◌, ◌≤◌, ◌≡◌, refl, String, List, [], ◌∷◌, arith}

pub data FieldType : Type 0 where
  c_int64 c_uint64 c_uint32 c_void_p c_size_t : FieldType

-- The size of a type, which is its alignment.
abbrev pub size_of : FieldType → ℕ
size_of c_int64 = 8
size_of c_uint64 = 8
size_of c_uint32 = 4
size_of c_void_p = 8
size_of c_size_t = 8

abbrev pub Fields : Type 0
Fields = List (String × FieldType)

abbrev pub kernel_timespec : Fields
kernel_timespec = ("tv_sec", c_int64) ∷ ("tv_nsec", c_int64) ∷ []

abbrev pub open_how : Fields
open_how = ("flags", c_uint64) ∷ ("mode", c_uint64) ∷ ("resolve", c_uint64) ∷ []

abbrev pub epoll_event : Fields
epoll_event = ("events", c_uint32) ∷ ("_pad", c_uint32) ∷ ("data", c_uint64) ∷ []

abbrev pub futex_waitv : Fields
futex_waitv =
    ("val", c_uint64) ∷ ("uaddr", c_uint64) ∷ ("flags", c_uint32) ∷ ("_reserved", c_uint32) ∷ []

abbrev pub iovec : Fields
iovec = ("iov_base", c_void_p) ∷ ("iov_len", c_size_t) ∷ []

-- The first multiple of a from `offset` on.
unfoldable pub align_up : ℕ → ℕ → ℕ
align_up offset a = offset + (a - offset % a) % a

-- Each field with its offset, from an offset on.
unfoldable pub layout : ℕ → Fields → List (String × ℕ × FieldType)
layout offset [] = []
layout offset ((name, t) ∷ fs) =
    (name, align_up offset (size_of t), t) ∷ layout (align_up offset (size_of t) + size_of t) fs

-- Where the last field ends.
unfoldable pub end_from : ℕ → Fields → ℕ
end_from offset [] = offset
end_from offset ((name, t) ∷ fs) = end_from (align_up offset (size_of t) + size_of t) fs

-- Every field is aligned, lies behind the one before it, and ends by `last`.
abbrev Laid : ℕ → ℕ → List (String × ℕ × FieldType) → Type 0
Laid from last [] = from ≤ last
Laid from last ((name, offset, t) ∷ fs) =
    (from ≤ offset) × (offset % size_of t ≡ 0) × Laid (offset + size_of t) last fs

align_up-aligned : (offset : ℕ) (t : FieldType) → align_up offset (size_of t) % size_of t ≡ 0
unfolding align_up
align_up-aligned offset c_int64 = omega arith
align_up-aligned offset c_uint64 = omega arith
align_up-aligned offset c_uint32 = omega arith
align_up-aligned offset c_void_p = omega arith
align_up-aligned offset c_size_t = omega arith

align_up-≤ : (offset a : ℕ) → offset ≤ align_up offset a
unfolding align_up
align_up-≤ offset a = omega arith

-- The layout of any structure keeps its fields aligned, apart and within its size.
layout-Laid : (offset : ℕ) (fs : Fields) → Laid offset (end_from offset fs) (layout offset fs)
unfolding layout end_from
layout-Laid offset [] = omega arith
layout-Laid offset ((name, t) ∷ fs) = (
  align_up-≤ offset (size_of t),
  align_up-aligned offset t,
  layout-Laid (align_up offset (size_of t) + size_of t) fs,
)

-- `EpollEvent` puts its data at offset 8, and has 16 bytes.
epoll_event-layout :
    layout 0 epoll_event
    ≡ ("events", 0, c_uint32) ∷ ("_pad", 4, c_uint32) ∷ ("data", 8, c_uint64) ∷ []
unfolding layout align_up
epoll_event-layout = refl
