-- ===== src/Easy/Presets.antt =====
-- Bounds of the presets of pyuring/_easy.py, and the adaptive buffer strategy.
use text.Mathlib.Text.{◌==◌ as str_eq}
use pyuring.Prelude.{
  inr, inl, ltb, Bool-cases, leb, suc, if◌then◌else◌, ℕ, ◌*◌, ◌^◌, ◌≤◌, ◌<◌, ◌≡◌, String, true,
  false, ℤ, pos, ◌≤ℤ◌, arith, ◌⊎◌,
}
use pyuring.Easy.Tuning.{adaptive_buffer_size, resolve_write_tuning, resolve_copy_tuning, Float64}
use Prim.Native.Nat.{zero}

-- The copy presets. "safe" gives a queue depth of at most 16 and a block of at most 1 MiB, and
-- neither above what was asked for; "fast" gives at least 64 and 1 MiB, and neither below it; any
-- other mode changes nothing.
resolve_copy_tuning_bounds :
    (mode : String) (qd block : ℤ)
    → let t = resolve_copy_tuning mode qd block in
      ((str_eq mode "safe" ≡ true)
        × (t.0 ≤ℤ pos 16)
        × (t.1 ≤ℤ pos (2 ^ 20))
        × (t.0 ≤ℤ qd)
        × (t.1 ≤ℤ block))
      ⊎ ((str_eq mode "fast" ≡ true)
          × (pos 64 ≤ℤ t.0)
          × (pos (2 ^ 20) ≤ℤ t.1)
          × (qd ≤ℤ t.0)
          × (block ≤ℤ t.1))
      ⊎ ((str_eq mode "safe" ≡ false) × (str_eq mode "fast" ≡ false) × (t ≡ (qd, block)))
unfolding resolve_copy_tuning
resolve_copy_tuning_bounds mode qd block = elim (Bool-cases (str_eq mode "safe")) [
  | inl safe ↦ inl (ground arith)
  | inr other ↦ elim (Bool-cases (str_eq mode "fast")) [
    | inl fast ↦ inr (inl (ground arith))
    | inr neither ↦ inr (inr (ground arith))
  ]
]

-- The same for the write presets: at most 128 and 4 KiB, at least 256 and 64 KiB.
resolve_write_tuning_bounds :
    (mode : String) (qd block : ℤ)
    → let t = resolve_write_tuning mode qd block in
      ((str_eq mode "safe" ≡ true)
        × (t.0 ≤ℤ pos 128)
        × (t.1 ≤ℤ pos 4096)
        × (t.0 ≤ℤ qd)
        × (t.1 ≤ℤ block))
      ⊎ ((str_eq mode "fast" ≡ true)
          × (pos 256 ≤ℤ t.0)
          × (pos (2 ^ 16) ≤ℤ t.1)
          × (qd ≤ℤ t.0)
          × (block ≤ℤ t.1))
      ⊎ ((str_eq mode "safe" ≡ false) × (str_eq mode "fast" ≡ false) × (t ≡ (qd, block)))
unfolding resolve_write_tuning
resolve_write_tuning_bounds mode qd block = elim (Bool-cases (str_eq mode "safe")) [
  | inl safe ↦ inl (ground arith)
  | inr other ↦ elim (Bool-cases (str_eq mode "fast")) [
    | inl fast ↦ inr (inl (ground arith))
    | inr neither ↦ inr (inr (ground arith))
  ]
]

-- The adaptive size without floats: the number of quarters of the file that are done.
abbrev quarters_done : ℕ → ℕ → ℕ
quarters_done offset total =
    if leb total 0
    then 0
    else if ltb (4 * offset) total
    then 0
    else if ltb (4 * offset) (2 * total)
    then 1
    else if ltb (4 * offset) (3 * total)
    then 2
    else 3

adaptive-quarters :
    (F : Float64) (offset total default : ℕ)
    → offset < 2 ^ 50
    → total < 2 ^ 50
    → adaptive_buffer_size F offset total default ≡ default * 2 ^ quarters_done offset total
unfolding adaptive_buffer_size
adaptive-quarters F offset zero default a b = ground arith
adaptive-quarters F offset (suc n) default a b = ground (
  arith,
  F.exact offset (suc n) 1 a b,
  F.exact offset (suc n) 2 a b,
  F.exact offset (suc n) 3 a b,
)

-- Below 2^50 the adaptive size doubles with each quarter of the file that is done: it never falls
-- as the offset grows, and stays between the default and eight times the default.
adaptive_buffer_size_monotone :
    (F : Float64) (offset offset' total default : ℕ)
    → offset ≤ offset'
    → offset' < 2 ^ 50
    → total < 2 ^ 50
    → (default ≤ adaptive_buffer_size F offset total default)
      × (adaptive_buffer_size F offset total default ≤ adaptive_buffer_size F offset' total default)
      × (adaptive_buffer_size F offset' total default ≤ 8 * default)
adaptive_buffer_size_monotone F offset offset' total default le a b = ground (
  arith,
  adaptive-quarters F offset total default (omega arith) b,
  adaptive-quarters F offset' total default a b,
)
