-- ===== src/Abi/Ranges.antt =====
-- The integers that ctypes passes.
use pyuring.Prelude.{◌↔◌, ◌%◌, ℕ, ◌*◌, ◌^◌, ◌<◌, ◌≡◌, ℤ, pos, negsuc, arith}
use native.Mathlib.Nat.{mod-lt, mod-eq_of_lt}
use mathlib.Core.Path.{ap, subst}
use pyuring.Abi.Types.{
  CType, c_int, c_uint, c_longlong, c_int64, c_uint64, c_size_t, c_void_p, c_char_p, pointer_to,
}
use pyuring.Abi.Convert.{convert, low_bits, signed}

abbrev pub SignedRange : ℕ → ℤ → Type 0
SignedRange half (pos n) = n < half
SignedRange half (negsuc n) = n < half

abbrev pub UnsignedRange : ℕ → ℤ → Type 0
UnsignedRange size (pos n) = n < size
UnsignedRange size (negsuc n) = ⊥

-- The values of an integer type.
abbrev pub InRange : CType → ℤ → Type 0
InRange c_int n = SignedRange (2 ^ 31) n
InRange c_uint n = UnsignedRange (2 ^ 32) n
InRange c_longlong n = SignedRange (2 ^ 63) n
InRange c_int64 n = SignedRange (2 ^ 63) n
InRange c_uint64 n = UnsignedRange (2 ^ 64) n
InRange c_size_t n = UnsignedRange (2 ^ 64) n
InRange c_void_p n = ⊥
InRange c_char_p n = ⊥
InRange (pointer_to p) n = ⊥

abbrev pub IsInteger : CType → Type 0
IsInteger c_void_p = ⊥
IsInteger c_char_p = ⊥
IsInteger (pointer_to p) = ⊥
IsInteger t = Unit

signed-SignedRange : (half r : ℕ) → r < half * 2 → SignedRange half (signed half r)
unfolding signed
signed-SignedRange half r h = ground arith

low_bits-< : (half : ℕ) (n : ℤ) → 0 < half → low_bits half n < half * 2
unfolding low_bits
low_bits-< half (pos n) h = mod-lt n (omega arith)
low_bits-< half (negsuc n) h = omega arith

below : (n half : ℕ) → n < half → n % (half * 2) ≡ n
below n half h = mod-eq_of_lt (omega arith)

signed-low_bits : (half : ℕ) (n : ℤ) → SignedRange half n → signed half (low_bits half n) ≡ n
unfolding signed low_bits
signed-low_bits half (pos n) h = ground (arith, below n half h)
signed-low_bits half (negsuc n) h = ground (arith, below n half h)

unsigned-low_bits : (half : ℕ) (n : ℤ) → UnsignedRange (half * 2) n → pos (low_bits half n) ≡ n
unfolding low_bits
unsigned-low_bits half (pos n) h = ap pos (mod-eq_of_lt h)
unsigned-low_bits half (negsuc n) h = elim h [ ]

convert_integer :
    (t : CType) (n : ℤ) → IsInteger t → InRange t (convert t n) × (InRange t n → convert t n ≡ n)
unfolding convert
convert_integer c_int n i =
    (signed-SignedRange _ _ (low_bits-< _ n (omega arith)), signed-low_bits _ n)
convert_integer c_uint n i = (low_bits-< (2 ^ 31) n (omega arith), unsigned-low_bits (2 ^ 31) n)
convert_integer c_longlong n i =
    (signed-SignedRange _ _ (low_bits-< _ n (omega arith)), signed-low_bits _ n)
convert_integer c_int64 n i =
    (signed-SignedRange _ _ (low_bits-< _ n (omega arith)), signed-low_bits _ n)
convert_integer c_uint64 n i = (low_bits-< (2 ^ 63) n (omega arith), unsigned-low_bits (2 ^ 63) n)
convert_integer c_size_t n i = (low_bits-< (2 ^ 63) n (omega arith), unsigned-low_bits (2 ^ 63) n)
convert_integer c_void_p n i = absurd i
convert_integer c_char_p n i = absurd i
convert_integer (pointer_to p) n i = absurd i

-- Whatever integer Python passes, C gets one of its parameter's type; and C gets it unchanged exactly
-- when it is one of that type.
convert-InRange :
    (t : CType) (n : ℤ) → IsInteger t → InRange t (convert t n) × ((convert t n ≡ n) ↔ InRange t n)
convert-InRange t n i =
    let (inside, same) = convert_integer t n i in (inside, (λ e. subst (InRange t) e inside, same))
