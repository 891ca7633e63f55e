-- ===== src/Sync/Masks.antt =====
-- The masks `& 0xFFFFFFFF` and `& 0xFFFFFFFFFFFFFFFF` of pyuring/native/uring_ctx.py.
use native.Mathlib.Nat.{mod-lt, mod-eq_of_lt}
use mathlib.Core.Path.{ap}
use pyuring.Prelude.{◌^◌, ◌<◌, ◌≡◌, refl, ℤ, pos, negsuc, arith}
use pyuring.Abi.Types.{c_uint, c_uint64}
use pyuring.Abi.Convert.{convert, low_bits}
use pyuring.Ctx.State.{mask32}
use pyuring.Sync.Request.{mask64}

pub mask32-< : (n : ℤ) → mask32 n < 2 ^ 32
unfolding mask32
mask32-< (pos n) = mod-lt n (omega arith)
mask32-< (negsuc n) = omega arith

mask64-< : (n : ℤ) → mask64 n < 2 ^ 64
unfolding mask64
mask64-< (pos n) = mod-lt n (omega arith)
mask64-< (negsuc n) = omega arith

convert-mask32 : (n : ℤ) → convert c_uint n ≡ pos (mask32 n)
unfolding convert low_bits mask32
convert-mask32 (pos n) = refl
convert-mask32 (negsuc n) = refl

convert-mask64 : (n : ℤ) → convert c_uint64 n ≡ pos (mask64 n)
unfolding convert low_bits mask64
convert-mask64 (pos n) = refl
convert-mask64 (negsuc n) = refl

-- A masked argument reaches C as it is, and it is what ctypes would make of the argument without the
-- mask: any integer of Python, negative ones in two's complement, by its low 32 or 64 bits.
masks_exact :
    (n : ℤ)
    → (convert c_uint (pos (mask32 n)) ≡ pos (mask32 n))
      × (convert c_uint n ≡ pos (mask32 n))
      × (mask32 n < 2 ^ 32)
      × (convert c_uint64 (pos (mask64 n)) ≡ pos (mask64 n))
      × (convert c_uint64 n ≡ pos (mask64 n))
      × (mask64 n < 2 ^ 64)
unfolding convert low_bits
masks_exact n = (
  ap pos (mod-eq_of_lt (mask32-< n)),
  convert-mask32 n,
  mask32-< n,
  ap pos (mod-eq_of_lt (mask64-< n)),
  convert-mask64 n,
  mask64-< n,
)
