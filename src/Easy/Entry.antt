-- ===== src/Easy/Entry.antt =====
-- `copy`, `write` and `write_many` of pyuring/_easy.py, over the native pipelines `lib`.
use text.Mathlib.Text.{◌==◌ as str_eq}
use pyuring.Prelude.{
  String, Bool, true, false, ◌||◌, not, Option, none, some, ℤ, pos, if◌then◌else◌,
}
use pyuring.Errors.{Result, ok, err}
use pyuring.CApi
use pyuring.CApi.{Pipelines, SizeCallback, ProgressCallback}
use pyuring.Easy.Tuning.{
  Float64, adaptive_buffer_size, resolve_copy_tuning, resolve_write_tuning, validate_mode,
  copy_fsync, write_fsync_dsync, fixed_block_cb,
}

infixl 5 ◌>>=◌ ◌>>◌
abbrev pub ◌>>=◌ : {A B : Type 0} → Result A → (A → Result B) → Result B
ok a >>= f = f a
err e >>= f = err e

abbrev pub ◌>>◌ : {A B : Type 0} → Result A → Result B → Result B
m >> k = m >>= λ _. k

abbrev pub or_else : Option SizeCallback → SizeCallback → SizeCallback
or_else none d = d
or_else (some f) d = f

abbrev pub given {ℓ} : {A : Type ℓ} → Option A → Bool
given none = false
given (some a) = true

module _ (F : Float64) (lib : Pipelines) where
  abbrev pub adaptive : SizeCallback
  adaptive offset total default = ok (pos (adaptive_buffer_size F offset total default))

  unfoldable pub copy :
      String
      → String
      → String
      → ℤ
      → ℤ
      → Bool
      → String
      → Option SizeCallback
      → Option ProgressCallback
      → Result ℤ
  copy src dst mode qd block_size fsync sync_policy size_cb progress_cb = do
    validate_mode mode
    let tuned = resolve_copy_tuning mode qd block_size
    fsync_eff ← copy_fsync sync_policy fsync
    if str_eq mode "auto"
        then CApi.copy_path_dynamic lib src dst tuned.0 tuned.1 (some (or_else size_cb adaptive))
            fsync_eff progress_cb
        else if given progress_cb || (not (str_eq sync_policy "default") || given size_cb)
        then CApi.copy_path_dynamic lib src dst tuned.0 tuned.1
            (some (or_else size_cb (fixed_block_cb tuned.1))) fsync_eff progress_cb
        else CApi.copy_path lib src dst tuned.0 tuned.1

  unfoldable pub write :
      String
      → ℤ
      → String
      → ℤ
      → ℤ
      → Bool
      → Bool
      → String
      → Option SizeCallback
      → Option ProgressCallback
      → Result ℤ
  write dst total_mb mode qd block_size fsync dsync sync_policy size_cb progress_cb = do
    validate_mode mode
    let tuned = resolve_write_tuning mode qd block_size
    eff ← write_fsync_dsync sync_policy fsync dsync
    if str_eq mode "auto"
        then CApi.write_newfile_dynamic lib dst total_mb tuned.1 tuned.0 eff.0 eff.1
            (some (or_else size_cb adaptive)) progress_cb
        else if given progress_cb || (not (str_eq sync_policy "default") || given size_cb)
        then CApi.write_newfile_dynamic lib dst total_mb tuned.1 tuned.0 eff.0 eff.1
            (some (or_else size_cb (fixed_block_cb tuned.1))) progress_cb
        else CApi.write_newfile lib dst total_mb tuned.1 tuned.0 eff.0 eff.1

  unfoldable pub write_many : String → ℤ → ℤ → String → ℤ → ℤ → Bool → String → Result ℤ
  write_many dir nfiles mb_per_file mode qd block_size fsync_end sync_policy = do
    validate_mode mode
    let tuned = resolve_write_tuning mode qd block_size
    fsync_eff ← copy_fsync sync_policy fsync_end
    CApi.write_manyfiles lib dir nfiles mb_per_file tuned.1 tuned.0 fsync_eff
