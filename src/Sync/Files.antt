-- ===== src/Sync/Files.antt =====
-- Files and paths: methods of `UringCtx` in pyuring/native/uring_ctx.py.
use pyuring.Prelude.{String, Bool, true, false, Option, none, some, [], ◌∷◌, ℤ, pos, if◌then◌else◌}
use pyuring.Errors.{Result, Exception, nowhere, value_error, type_error}
use pyuring.Abi.Types.{an_open_how}
use pyuring.Abi.Convert.{integer, encoded, memory, array}
use pyuring.Sync.Request.{
  unless, Buffer, Request, no_result, int_result, masked32, masked64, size, with_buffer,
}

abbrev pub openat : String → ℤ → ℤ → ℤ → Request
openat path flags mode dir_fd =
    record (int_result "uring_openat_sync"
      (integer dir_fd ∷ encoded path ∷ integer flags ∷ masked32 mode ∷ [])) {
        place = record nowhere { filename = some path };
      }

abbrev pub close_fd : ℤ → Request
close_fd fd = no_result "uring_close_sync" (integer fd ∷ [])

abbrev pub fsync_fd : ℤ → Bool → Request
fsync_fd fd datasync =
    no_result "uring_fsync_sync" (integer fd ∷ integer (pos (if datasync then 1 else 0)) ∷ [])

abbrev pub fallocate_fd : ℤ → ℤ → ℤ → ℤ → Request
fallocate_fd fd mode offset length =
    no_result "uring_fallocate_sync"
      (integer fd ∷ integer mode ∷ integer offset ∷ integer length ∷ [])

abbrev pub statx : String → ℤ → ℤ → ℤ → Request
statx path dir_fd flags mask =
    no_result "uring_statx_sync"
      (integer dir_fd ∷ encoded path ∷ integer flags ∷ masked32 mask ∷ memory 512 ∷ [])

abbrev pub renameat : String → String → ℤ → ℤ → ℤ → Request
renameat old_path new_path old_dir_fd new_dir_fd flags = no_result "uring_renameat_sync" (
    integer old_dir_fd
    ∷ encoded old_path
    ∷ integer new_dir_fd
    ∷ encoded new_path
    ∷ masked32 flags
    ∷ [])

abbrev pub unlinkat : String → ℤ → ℤ → Request
unlinkat path dir_fd flags =
    no_result "uring_unlinkat_sync" (integer dir_fd ∷ encoded path ∷ integer flags ∷ [])

abbrev pub mkdirat : String → ℤ → ℤ → Request
mkdirat path mode dir_fd =
    no_result "uring_mkdirat_sync" (integer dir_fd ∷ encoded path ∷ masked32 mode ∷ [])

abbrev pub symlinkat : String → String → ℤ → Request
symlinkat target link_path new_dir_fd =
    no_result "uring_symlinkat_sync" (encoded target ∷ integer new_dir_fd ∷ encoded link_path ∷ [])

abbrev pub linkat : String → String → ℤ → ℤ → ℤ → Request
linkat old_path new_path old_dir_fd new_dir_fd flags = no_result "uring_linkat_sync" (
    integer old_dir_fd
    ∷ encoded old_path
    ∷ integer new_dir_fd
    ∷ encoded new_path
    ∷ integer flags
    ∷ [])

abbrev pub sync_file_range : ℤ → ℤ → ℤ → ℤ → Request
sync_file_range fd length offset flags =
    no_result "uring_sync_file_range_sync"
      (integer fd ∷ masked32 length ∷ masked64 offset ∷ integer flags ∷ [])

abbrev pub fadvise : ℤ → ℤ → ℤ → ℤ → Request
fadvise fd offset length advice =
    no_result "uring_fadvise_sync"
      (integer fd ∷ masked64 offset ∷ masked32 length ∷ integer advice ∷ [])

-- The tests of `madvise` on what is no `mmap`.
abbrev pub madvise_refuses : Bool → Buffer → Option Exception
madvise_refuses true buf = none
madvise_refuses false buf =
    if buf.readonly then some type_error else if buf.contiguous then none else some value_error

abbrev pub madvise : Bool → Buffer → ℤ → Result Request
madvise is_mmap buf advice = unless (madvise_refuses is_mmap buf) (
    with_buffer buf.len buf
      (λ arr. no_result "uring_madvise_sync" (arr ∷ size buf.len ∷ integer advice ∷ [])))

abbrev pub openat2 : String → ℤ → Request
openat2 path dir_fd =
    int_result "uring_openat2_sync" (integer dir_fd ∷ encoded path ∷ array an_open_how 1 ∷ [])

abbrev pub getxattr : String → String → Buffer → Result Request
getxattr path name value = with_buffer value.len value (λ arr.
    int_result "uring_getxattr_sync" (encoded name ∷ arr ∷ encoded path ∷ size value.len ∷ []))

abbrev pub setxattr : String → String → Buffer → ℤ → Request
setxattr path name value flags =
    no_result "uring_setxattr_sync"
      (encoded name ∷ memory value.len ∷ encoded path ∷ integer flags ∷ size value.len ∷ [])

abbrev pub fgetxattr : ℤ → String → Buffer → Result Request
fgetxattr fd name value = with_buffer value.len value (λ arr.
    int_result "uring_fgetxattr_sync" (integer fd ∷ encoded name ∷ arr ∷ size value.len ∷ []))

abbrev pub fsetxattr : ℤ → String → Buffer → ℤ → Request
fsetxattr fd name value flags =
    no_result "uring_fsetxattr_sync"
      (integer fd ∷ encoded name ∷ memory value.len ∷ integer flags ∷ size value.len ∷ [])

abbrev pub ftruncate : ℤ → ℤ → Request
ftruncate fd length = no_result "uring_ftruncate_sync" (integer fd ∷ integer length ∷ [])
