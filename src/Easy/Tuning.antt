-- ===== src/Easy/Tuning.antt =====
-- The presets of pyuring/_easy.py. Python's floats are a parameter.
use text.Mathlib.Text.{◌==◌ as str_eq}
use pyuring.Prelude.{
  ℕ, ◌*◌, ◌^◌, ◌<◌, ◌≡◌, String, Bool, true, false, ◌||◌, ℤ, pos, ltb, ltb_ℤ, leb, if◌then◌else◌,
}
use pyuring.Errors.{Result, ok, err, value_error}

-- What the module uses of floats: the quotient of two integers, the test `<`, and three literals.
-- `exact` is IEEE arithmetic: below 2^50 a quotient is on the same side of a quarter of one as its
-- rounded value.
pub record Float64 : Type 1 where
  pub Float : Type 0
  pub quotient : ℕ → ℕ → Float
  pub less : Float → Float → Bool
  pub quarters : ℕ → Float
  pub exact :
      (a b k : ℕ)
      → a < 2 ^ 50
      → b < 2 ^ 50
      → 0 < b
      → k < 4
      → less (quotient a b) (quarters k) ≡ ltb (4 * a) (k * b)

-- `_adaptive_buffer_size`
unfoldable pub adaptive_buffer_size : Float64 → ℕ → ℕ → ℕ → ℕ
adaptive_buffer_size F offset total default =
    if leb total 0
    then default
    else if F.less (F.quotient offset total) (F.quarters 1)
    then default
    else if F.less (F.quotient offset total) (F.quarters 2)
    then default * 2
    else if F.less (F.quotient offset total) (F.quarters 3)
    then default * 4
    else default * 8

abbrev pub min_ℤ : ℤ → ℤ → ℤ
min_ℤ a b = if ltb_ℤ b a then b else a

abbrev pub max_ℤ : ℤ → ℤ → ℤ
max_ℤ a b = if ltb_ℤ a b then b else a

-- `_resolve_copy_tuning`
unfoldable pub resolve_copy_tuning : String → ℤ → ℤ → ℤ × ℤ
resolve_copy_tuning mode qd block_size =
    if str_eq mode "safe"
    then (min_ℤ qd (pos 16), min_ℤ block_size (pos (2 ^ 20)))
    else if str_eq mode "fast"
    then (max_ℤ qd (pos 64), max_ℤ block_size (pos (2 ^ 20)))
    else (qd, block_size)

-- `_resolve_write_tuning`
unfoldable pub resolve_write_tuning : String → ℤ → ℤ → ℤ × ℤ
resolve_write_tuning mode qd block_size =
    if str_eq mode "safe"
    then (min_ℤ qd (pos 128), min_ℤ block_size (pos 4096))
    else if str_eq mode "fast"
    then (max_ℤ qd (pos 256), max_ℤ block_size (pos (2 ^ 16)))
    else (qd, block_size)

abbrev pub is_mode : String → Bool
is_mode mode = str_eq mode "safe" || (str_eq mode "fast" || str_eq mode "auto")

-- `_validate_mode`
unfoldable pub validate_mode : String → Result (Unit {0})
validate_mode mode = if is_mode mode then ok tt else err value_error

-- `_copy_fsync`
unfoldable pub copy_fsync : String → Bool → Result Bool
copy_fsync sync_policy fsync =
    if str_eq sync_policy "default"
    then ok fsync
    else if str_eq sync_policy "none"
    then ok false
    else if str_eq sync_policy "end"
    then ok true
    else err value_error

-- `_write_fsync_dsync`
unfoldable pub write_fsync_dsync : String → Bool → Bool → Result (Bool × Bool)
write_fsync_dsync sync_policy fsync dsync =
    if str_eq sync_policy "default"
    then ok (fsync, dsync)
    else if str_eq sync_policy "none"
    then ok (false, false)
    else if str_eq sync_policy "end"
    then ok (true, false)
    else if str_eq sync_policy "data"
    then ok (false, true)
    else if str_eq sync_policy "end_and_data"
    then ok (true, true)
    else err value_error

-- `_fixed_block_cb`
unfoldable pub fixed_block_cb : ℤ → ℕ → ℕ → ℕ → Result ℤ
fixed_block_cb block _ _ _ = ok block
