-- ===== src/Exports.antt =====
-- pyuring/__init__.py: the names that the package binds, those that it exports, and `direct`. The
-- constants that pyuring/native/constants.py lists are the argument `constants`.
use Prim.Native.String.{String}
use text.Mathlib.Text.{◌==◌ as str_eq}
use pyuring.Prelude.{arith, Bool, true, false, ◌||◌, ◌&&◌, List, [], ◌∷◌, ◌++◌, ◌≡◌, refl}

abbrev has : String → List String → Bool
has n [] = false
has n (m ∷ ms) = let rest = has n ms in str_eq n m || rest

-- `from pyuring._native import (…)`
abbrev pub from_native : List String
from_native =
    "BufferPool" ∷ "EpollEvent" ∷ "FutexWaitv" ∷ "OpenHow" ∷ "SIGINFO_T_SIZE"
    ∷ "UAPI_CONSTANT_NAMES" ∷ "UringCtx" ∷ "UringError" ∷ "copy_path" ∷ "copy_path_dynamic"
    ∷ "write_manyfiles" ∷ "write_newfile" ∷ "write_newfile_dynamic" ∷ []

abbrev pub from_easy : List String
from_easy =
    "CopySyncPolicy" ∷ "ProgressFn" ∷ "WriteSyncPolicy" ∷ "copy" ∷ "write" ∷ "write_many" ∷ []

abbrev pub from_aio : List String
from_aio =
    "UringAsync" ∷ "iter_multishot_accept" ∷ "sendfile_splice" ∷ "wait_completion_in_executor" ∷ []

-- The other imports, a module among them.
abbrev pub from_others : List String
from_others =
    "AsyncFile" ∷ "async_open" ∷ "open" ∷ "BufferRing" ∷ "UringPool" ∷ "IO_URING_KERNEL_DOC"
    ∷ "LIBURING_PROJECT" ∷ "IoUringProbeInfo" ∷ "get_probe_info" ∷ "opcode_supported"
    ∷ "require_opcode_supported" ∷ "ring_presets" ∷ []

-- `direct` is a record of the same objects, and `raw` another name of it.
abbrev pub direct_names : List String
direct_names =
    "UringError" ∷ "UringCtx" ∷ "BufferPool" ∷ "copy_path" ∷ "copy_path_dynamic" ∷ "write_newfile"
    ∷ "write_newfile_dynamic" ∷ "write_manyfiles" ∷ "UringAsync" ∷ []

abbrev pub own_names : List String
own_names = from_native ++ (from_easy ++ (from_aio ++ (from_others ++ "direct" ∷ "raw" ∷ [])))

-- The names bound at the end of the module, less those of its loop, which it deletes.
unfoldable pub bound : List String → List String
bound constants = own_names ++ constants

abbrev pub listed : List String
listed =
    "copy" ∷ "write" ∷ "write_many" ∷ "CopySyncPolicy" ∷ "WriteSyncPolicy" ∷ "ProgressFn" ∷ "direct"
    ∷ "raw" ∷ "UAPI_CONSTANT_NAMES" ∷ "EpollEvent" ∷ "FutexWaitv" ∷ "OpenHow" ∷ "SIGINFO_T_SIZE"
    ∷ "UringError" ∷ "UringCtx" ∷ "BufferPool" ∷ "copy_path" ∷ "copy_path_dynamic" ∷ "write_newfile"
    ∷ "write_newfile_dynamic" ∷ "write_manyfiles" ∷ "UringAsync" ∷ "sendfile_splice"
    ∷ "iter_multishot_accept" ∷ "wait_completion_in_executor" ∷ "BufferRing" ∷ "UringPool"
    ∷ "ring_presets" ∷ "IO_URING_KERNEL_DOC" ∷ "LIBURING_PROJECT" ∷ "IoUringProbeInfo"
    ∷ "get_probe_info" ∷ "opcode_supported" ∷ "require_opcode_supported" ∷ "AsyncFile" ∷ "open"
    ∷ "async_open" ∷ []

-- `__all__`
unfoldable pub exported : List String → List String
exported constants = listed ++ constants

abbrev every : (String → Bool) → List String → Bool
every p [] = true
every p (n ∷ ns) = let rest = every p ns in p n && rest

-- every name that is exported is bound: those listed, and the constants.
listed_bound : (constants : List String) → every (λ n. has n (bound constants)) listed ≡ true
unfolding bound
listed_bound constants = refl

has-append : (n : String) (xs ys : List String) → has n ys ≡ true → has n (xs ++ ys) ≡ true
has-append n [] ys h = h
has-append n (x ∷ xs) ys h = ground (arith, has-append n xs ys h)

-- The constants that it adds are bound.
constants_bound :
    (constants : List String) (n : String) → has n constants ≡ true → has n (bound constants) ≡ true
unfolding bound
constants_bound constants n h = has-append n own_names constants h

-- `direct` has attributes of names that the package binds.
direct_bound : every (λ n. has n (bound [])) direct_names ≡ true
unfolding bound
direct_bound = refl
