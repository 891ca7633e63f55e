-- ===== src/Abi/Convert.antt =====
-- What ctypes makes of a Python argument under an entry of `argtypes`.
use pyuring.Prelude.{
  ℕ, String, ◌-◌, ◌%◌, ◌*◌, ◌^◌, Bool, true, false, List, [], ◌∷◌, ◌&&◌, ℤ, pos, negsuc, ltb, ◌==◌,
  if◌then◌else◌,
}
use pyuring.Abi.Types.{
  Pointee, a_timespec, an_iovec, CType, c_int, c_uint, c_longlong, c_int64, c_uint64, c_size_t,
  c_void_p, c_char_p, pointer_to, code,
}

-- An argument that the methods pass: the handle of the ring, an integer, an encoded string, a block
-- of so many bytes, an array or one structure, a `KernelTimespec`, an array of `_IOVec` with these
-- lengths, one of `c_longlong` with these values cast to `void *`, `None`, or `byref` of an `int`, which raises a `TypeError` before the call.
pub data Arg : Type 0 where
  handle null byref_of_int : Arg
  integer : ℤ → Arg
  encoded : String → Arg
  memory : ℕ → Arg
  array : Pointee → ℕ → Arg
  timespec : ℤ → ℤ → Arg
  iovecs longlongs : List ℕ → Arg

-- Whether ctypes takes the argument; else it raises `ctypes.ArgumentError`.
abbrev pub takes : CType → Arg → Bool
takes c_void_p handle = true
takes c_void_p null = true
takes c_void_p (memory n) = true
takes c_void_p (longlongs ns) = true
takes c_void_p a = false
takes c_char_p (encoded s) = true
takes c_char_p (memory n) = true
takes c_char_p a = false
takes (pointer_to p) null = true
takes (pointer_to p) (array q n) = code p == code q
takes (pointer_to p) (timespec s n) = code p == code a_timespec
takes (pointer_to p) (iovecs ns) = code p == code an_iovec
takes (pointer_to p) a = false
takes t (integer n) = true
takes t a = false

abbrev pub evaluates : List Arg → Bool
evaluates [] = true
evaluates (byref_of_int ∷ rest) = false
evaluates (a ∷ rest) = evaluates rest

abbrev pub takes_all : List CType → List Arg → Bool
takes_all [] [] = true
takes_all [] (a ∷ rest) = false
takes_all (t ∷ ts) [] = false
takes_all (t ∷ ts) (a ∷ rest) = takes t a && takes_all ts rest

-- The low bits of an integer of Python, read without and with a sign. `half` is half of the range.
unfoldable pub low_bits : ℕ → ℤ → ℕ
low_bits half (pos n) = n % (half * 2)
low_bits half (negsuc n) = half * 2 - 1 - n % (half * 2)

unfoldable pub signed : ℕ → ℕ → ℤ
signed half r = if ltb r half then pos r else negsuc (half * 2 - 1 - r)

-- The integer that C gets.
unfoldable pub convert : CType → ℤ → ℤ
convert c_int n = signed (2 ^ 31) (low_bits (2 ^ 31) n)
convert c_uint n = pos (low_bits (2 ^ 31) n)
convert c_longlong n = signed (2 ^ 63) (low_bits (2 ^ 63) n)
convert c_int64 n = signed (2 ^ 63) (low_bits (2 ^ 63) n)
convert c_uint64 n = pos (low_bits (2 ^ 63) n)
convert c_size_t n = pos (low_bits (2 ^ 63) n)
convert c_void_p n = n
convert c_char_p n = n
convert (pointer_to p) n = n

abbrev pub pass : CType → Arg → Arg
pass t (integer n) = integer (convert t n)
pass t a = a

abbrev pub pass_all : List CType → List Arg → List Arg
pass_all [] rest = rest
pass_all (t ∷ ts) [] = []
pass_all (t ∷ ts) (a ∷ rest) = pass t a ∷ pass_all ts rest
