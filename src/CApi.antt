-- ===== src/CApi.antt =====
-- pyuring/native/c_api.py. The pipelines of csrc/uring_wrap.c are a parameter: what each returns for
-- the arguments that it gets. A callback argument is the function that C may call; the null pointer
-- is `none`. ctypes keeps the low 32 bits of a `c_uint` argument.
use pyuring.Prelude.{ℕ, String, Bool, Option, none, some, ℤ, pos, is_neg, if◌then◌else◌}
use pyuring.Errors.{Result, ok, err, raise_for_neg_errno, nowhere}
use pyuring.Ctx.State.{mask32}

pub record CopyCall : Type 0 where
  pub src : String
  pub dst : String
  pub qd : ℕ
  pub block_size : ℕ

pub record CopyDynamicCall : Type 0 where
  pub src : String
  pub dst : String
  pub qd : ℕ
  pub block_size : ℕ
  pub size_cb : Option (ℕ → ℕ → ℕ → ℕ)
  pub fsync : ℕ
  pub progress_cb : Option (ℕ → ℕ → ℕ)

pub record WriteCall : Type 0 where
  pub dst : String
  pub total_mb : ℕ
  pub block_size : ℕ
  pub qd : ℕ
  pub fsync : ℕ
  pub dsync : ℕ

pub record WriteDynamicCall : Type 0 where
  pub dst : String
  pub total_mb : ℕ
  pub block_size : ℕ
  pub qd : ℕ
  pub fsync : ℕ
  pub dsync : ℕ
  pub size_cb : Option (ℕ → ℕ → ℕ → ℕ)
  pub progress_cb : Option (ℕ → ℕ → ℕ)

pub record ManyCall : Type 0 where
  pub dir : String
  pub nfiles : ℕ
  pub mb_per_file : ℕ
  pub block_size : ℕ
  pub qd : ℕ
  pub fsync_end : ℕ

pub record Pipelines : Type 0 where
  pub uring_copy_path : CopyCall → ℤ
  pub uring_copy_path_dynamic : CopyDynamicCall → ℤ
  pub uring_write_newfile : WriteCall → ℤ
  pub uring_write_newfile_dynamic : WriteDynamicCall → ℤ
  pub uring_write_manyfiles : ManyCall → ℤ

-- A Python callback for the buffer size; it may raise.
abbrev pub SizeCallback : Type 0
SizeCallback = ℕ → ℕ → ℕ → Result ℤ

-- A Python callback for the progress; it answers whether to cancel, or raises.
abbrev pub ProgressCallback : Type 0
ProgressCallback = ℕ → ℕ → Result Bool

-- `_callback_wrapper`, as a function into `c_uint`.
unfoldable pub callback_wrapper : SizeCallback → ℕ → ℕ → ℕ → ℕ
callback_wrapper cb offset total default = elim (cb offset total default) [
  | ok n ↦ mask32 n
  | err e ↦ default
]

-- `_progress_wrapper`
unfoldable pub progress_wrapper : ProgressCallback → ℕ → ℕ → ℕ
progress_wrapper cb done total = elim (cb done total) [
  | ok cancel ↦ if cancel then 1 else 0
  | err e ↦ 1
]

abbrev pub wrap {ℓ κ} : {A : Type ℓ} {B : Type κ} → (A → B) → Option A → Option B
wrap f none = none
wrap f (some a) = some (f a)

-- `int(bool(x))`
abbrev pub flag : Bool → ℕ
flag b = if b then 1 else 0

-- `_raise_for_neg_errno(int(ret) if ret < 0 else 0, …); return int(ret)`
abbrev pub finish : ℤ → String → Result ℤ
unfolding raise_for_neg_errno
finish ret operation =
    elim (raise_for_neg_errno {S = Unit {0}} (if is_neg ret then ret else pos 0) operation nowhere
      tt).0 [ ok _ ↦ ok ret | err e ↦ err e ]

module _ (lib : Pipelines) where
  unfoldable pub copy_path : String → String → ℤ → ℤ → Result ℤ
  copy_path src dst qd block_size =
      finish
        (lib.uring_copy_path
          (record { src = src; dst = dst; qd = mask32 qd; block_size = mask32 block_size }))
        "uring_copy_path"

  unfoldable pub copy_path_dynamic :
      String → String → ℤ → ℤ → Option SizeCallback → Bool → Option ProgressCallback → Result ℤ
  copy_path_dynamic src dst qd block_size size_cb fsync progress_cb =
      finish
        (lib.uring_copy_path_dynamic (record {
          src = src;
          dst = dst;
          qd = mask32 qd;
          block_size = mask32 block_size;
          size_cb = wrap callback_wrapper size_cb;
          fsync = flag fsync;
          progress_cb = wrap progress_wrapper progress_cb;
        }))
        "uring_copy_path_dynamic"

  unfoldable pub write_newfile : String → ℤ → ℤ → ℤ → Bool → Bool → Result ℤ
  write_newfile dst total_mb block_size qd fsync dsync =
      finish
        (lib.uring_write_newfile (record {
          dst = dst;
          total_mb = mask32 total_mb;
          block_size = mask32 block_size;
          qd = mask32 qd;
          fsync = flag fsync;
          dsync = flag dsync;
        }))
        "uring_write_newfile"

  unfoldable pub write_newfile_dynamic :
      String → ℤ → ℤ → ℤ → Bool → Bool → Option SizeCallback → Option ProgressCallback → Result ℤ
  write_newfile_dynamic dst total_mb block_size qd fsync dsync size_cb progress_cb =
      finish
        (lib.uring_write_newfile_dynamic (record {
          dst = dst;
          total_mb = mask32 total_mb;
          block_size = mask32 block_size;
          qd = mask32 qd;
          fsync = flag fsync;
          dsync = flag dsync;
          size_cb = wrap callback_wrapper size_cb;
          progress_cb = wrap progress_wrapper progress_cb;
        }))
        "uring_write_newfile_dynamic"

  unfoldable pub write_manyfiles : String → ℤ → ℤ → ℤ → ℤ → Bool → Result ℤ
  write_manyfiles dir nfiles mb_per_file block_size qd fsync_end =
      finish
        (lib.uring_write_manyfiles (record {
          dir = dir;
          nfiles = mask32 nfiles;
          mb_per_file = mask32 mb_per_file;
          block_size = mask32 block_size;
          qd = mask32 qd;
          fsync_end = flag fsync_end;
        }))
        "uring_write_manyfiles"
