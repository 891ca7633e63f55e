-- ===== src/Abi/Types.antt =====
-- The types that ctypes and C name at their boundary, for a machine with 64-bit pointers.
use text.Mathlib.Text.{◌==◌ as str_eq}
use pyuring.Prelude.{ℕ, String, Option, none, some, List, [], ◌∷◌, if◌then◌else◌}

-- What a typed pointer points to: integers, and the structures of pyuring/native/structs.py.
pub data Pointee : Type 0 where
  an_int a_uint a_uint32 a_uint64 : Pointee
  an_iovec a_timespec an_open_how an_epoll_event a_futex_waitv : Pointee

pub data CType : Type 0 where
  c_int c_uint c_longlong c_int64 c_uint64 c_size_t c_void_p c_char_p : CType
  pointer_to : Pointee → CType

-- A parameter of a C function: an integer with its bits, `char *`, a typed pointer, or a pointer to
-- anything else.
pub data CParam : Type 0 where
  c_signed c_unsigned : ℕ → CParam
  text_pointer opaque : CParam
  pointer : Pointee → CParam

pub record Signature (A : Type 0) : Type 0 where
  pub name : String
  pub params : List A

abbrev pub signature : {A : Type 0} → String → List A → Signature A
signature name params = record { name = name; params = params }

abbrev pub find : {A : Type 0} → String → List (Signature A) → Option (List A)
find name [] = none
find name (s ∷ ss) = if str_eq s.name name then some s.params else find name ss

abbrev pub code : Pointee → ℕ
code an_int = 0
code a_uint = 1
code a_uint32 = 2
code a_uint64 = 3
code an_iovec = 4
code a_timespec = 5
code an_open_how = 6
code an_epoll_event = 7
code a_futex_waitv = 8
