-- ===== src/Easy/Routes.antt =====
-- Which pipeline `copy` and `write` of pyuring/_easy.py call, and with which flags.
use pyuring.CApi
use pyuring.Errors.{raise_for_neg_errno}
use text.Mathlib.Text.{◌==◌ as str_eq}
use pyuring.Easy.Entry.{given, copy, write}
use pyuring.CApi.{
  flag, ProgressCallback, SizeCallback, progress_wrapper, Pipelines, callback_wrapper,
}
use pyuring.Prelude.{
  refl, not, negsuc, ◌||◌, inr, inl, ◌↔◌, arith, none, ◌⊎◌, true, false, ◌<◌, Option, ◌≡◌, Bool, ℕ,
  ℤ, String, ◌*◌, ◌+◌, pos,
}
use pyuring.Easy.Tuning.{write_fsync_dsync, is_mode, Float64, copy_fsync, validate_mode}
use pyuring.Ctx.State.{u32_mod, mask32}
use pyuring.Errors.{Result, Exception, value_error, err, ok}

-- Pipelines that return the flags that they are called with: `copy_path` takes none.
abbrev pub flag_probe : Pipelines
flag_probe = record {
  uring_copy_path = λ c. pos 2;
  uring_copy_path_dynamic = λ c. pos c.fsync;
  uring_write_newfile = λ c. pos (c.fsync + 2 * c.dsync);
  uring_write_newfile_dynamic = λ c. pos (c.fsync + 2 * c.dsync);
  uring_write_manyfiles = λ c. pos c.fsync_end;
}

-- An unknown mode or policy raises a `ValueError`, and no pipeline runs: the result is the same
-- for any two libraries.
copy_invalid :
    (F : Float64) (lib : Pipelines) (src dst mode : String) (qd block : ℤ) (fsync : Bool)
    (policy : String) (size_cb : Option SizeCallback) (progress_cb : Option ProgressCallback)
    → (is_mode mode ≡ false) ⊎ (copy_fsync policy fsync ≡ err value_error)
    → copy F lib src dst mode qd block fsync policy size_cb progress_cb ≡ err value_error
unfolding copy validate_mode
copy_invalid F lib src dst mode qd block fsync policy size_cb progress_cb (inl h) = ground arith
copy_invalid F lib src dst mode qd block fsync policy size_cb progress_cb (inr h) = ground arith

-- In the modes "safe" and "fast", with the default policy and no callback, `copy` does the same
-- whether or not `fsync` is asked for: the request is dropped.
copy_drops_fsync :
    (F : Float64) (lib : Pipelines) (src dst mode : String) (qd block : ℤ)
    → str_eq mode "auto" ≡ false
    → copy F lib src dst mode qd block true "default" none none
      ≡ copy F lib src dst mode qd block false "default" none none
unfolding copy copy_fsync
copy_drops_fsync F lib src dst mode qd block h = ground arith

-- In every other accepted call the pipeline of `copy` gets the flag that the policy says.
copy_keeps_fsync :
    (F : Float64) (src dst mode : String) (qd block : ℤ) (fsync f : Bool) (policy : String)
    (size_cb : Option SizeCallback) (progress_cb : Option ProgressCallback)
    → is_mode mode ≡ true
    → copy_fsync policy fsync ≡ ok f
    → (str_eq mode "auto"
        || (given progress_cb || (not (str_eq policy "default") || given size_cb)))
      ≡ true
    → copy F flag_probe src dst mode qd block fsync policy size_cb progress_cb ≡ ok (pos (flag f))
unfolding copy validate_mode CApi.copy_path_dynamic raise_for_neg_errno
copy_keeps_fsync F src dst mode qd block fsync f policy size_cb progress_cb m e h = ground arith

-- Whatever the route, the pipeline of `write` gets the two flags that the policy says.
write_keeps_flags :
    (F : Float64) (dst : String) (total_mb : ℤ) (mode : String) (qd block : ℤ)
    (fsync dsync f d : Bool) (policy : String) (size_cb : Option SizeCallback)
    (progress_cb : Option ProgressCallback)
    → is_mode mode ≡ true
    → write_fsync_dsync policy fsync dsync ≡ ok (f, d)
    → write F flag_probe dst total_mb mode qd block fsync dsync policy size_cb progress_cb
      ≡ ok (pos (flag f + 2 * flag d))
unfolding write validate_mode CApi.write_newfile CApi.write_newfile_dynamic raise_for_neg_errno
write_keeps_flags F dst total_mb mode qd block fsync dsync f d policy size_cb progress_cb m e =
    ground arith

-- A callback that raises cannot break the pipeline: the size falls back to the default, and the
-- progress asks to cancel; `True` cancels and `False` does not. No size leaves 32 bits.
callbacks_lem :
    (size : SizeCallback) (progress : ProgressCallback) (a b default : ℕ)
    → default < u32_mod
    → (callback_wrapper size a b default < u32_mod)
      × (((e : Exception) × (size a b default ≡ err e)
            × (callback_wrapper size a b default ≡ default))
          ⊎ ((n : ℤ) × (size a b default ≡ ok n) × (callback_wrapper size a b default ≡ mask32 n)))
      × ((progress_wrapper progress a b ≡ 0) ↔ (progress a b ≡ ok false))
unfolding callback_wrapper progress_wrapper mask32
callbacks_lem size progress a b default h =
    (sized (size a b default) refl, split (size a b default) refl, asked (progress a b) refl)
  where
    sized : (r : Result ℤ) → size a b default ≡ r → callback_wrapper size a b default < u32_mod
    sized (ok (pos n)) e = ground arith
    sized (ok (negsuc n)) e = ground arith
    sized (err x) e = ground arith

    split :
        (r : Result ℤ)
        → size a b default ≡ r
        → ((e : Exception) × (size a b default ≡ err e)
            × (callback_wrapper size a b default ≡ default))
          ⊎ ((n : ℤ) × (size a b default ≡ ok n) × (callback_wrapper size a b default ≡ mask32 n))
    split (ok n) e = inr (n, e, ground arith)
    split (err x) e = inl (x, e, ground arith)

    asked :
        (r : Result Bool)
        → progress a b ≡ r
        → (progress_wrapper progress a b ≡ 0) ↔ (progress a b ≡ ok false)
    asked (ok true) e = (λ z. ground arith, λ z. ground arith)
    asked (ok false) e = (λ z. ground arith, λ z. ground arith)
    asked (err x) e = (λ z. ground arith, λ z. ground arith)
