-- ===== src/Sync/Spans.antt =====
-- How far C goes behind each pointer that a synchronous method passes.
use pyuring.Prelude.{ℕ, ◌*◌, ◌≤◌, Option, none, some, List, [], ◌∷◌, pos, length, zero, suc}
use pyuring.Abi.Types.{Signature, signature, find}
use pyuring.Abi.Convert.{Arg, null, integer, memory, array, iovecs, longlongs}
use pyuring.Sync.Request.{Request}

-- How many elements (bytes behind a `void *`) C reads or writes: as many as an argument says, as the
-- product of two says, or so many.
pub data Extent : Type 0 where
  number fixed : ℕ → Extent
  product : ℕ → ℕ → Extent

pub data Span : Type 0 where
  span : ℕ → Extent → Span

-- By the name of the function in csrc/uring_wrap.c, with the arguments counted behind the handle.
abbrev pub spans : List (Signature Span)
spans =
    signature "uring_madvise_sync" (span 0 (number 1) ∷ [])
    ∷ signature "uring_statx_sync" (span 4 (fixed 256) ∷ [])
    ∷ signature "uring_getxattr_sync" (span 1 (number 3) ∷ [])
    ∷ signature "uring_setxattr_sync" (span 1 (number 4) ∷ [])
    ∷ signature "uring_fgetxattr_sync" (span 2 (number 3) ∷ [])
    ∷ signature "uring_fsetxattr_sync" (span 2 (number 4) ∷ [])
    ∷ signature "uring_read_sync" (span 1 (number 2) ∷ [])
    ∷ signature "uring_write_sync" (span 1 (number 2) ∷ [])
    ∷ signature "uring_read_batch_sync" (span 1 (product 2 3) ∷ [])
    ∷ signature "uring_read_offsets_sync" (span 1 (product 2 4) ∷ span 3 (number 4) ∷ [])
    ∷ signature "uring_send_sync" (span 1 (number 2) ∷ [])
    ∷ signature "uring_recv_sync" (span 1 (number 2) ∷ [])
    ∷ signature "uring_accept_sync" (span 1 (fixed 128) ∷ span 2 (fixed 1) ∷ [])
    ∷ signature "uring_connect_sync" (span 1 (number 2) ∷ [])
    ∷ signature "uring_bind_sync" (span 1 (number 2) ∷ [])
    ∷ signature "uring_sendto_sync" (span 1 (number 2) ∷ span 4 (number 5) ∷ [])
    ∷ signature "uring_recv_multishot_sync" (span 1 (number 2) ∷ [])
    ∷ signature "uring_send_zc_sync" (span 1 (number 2) ∷ [])
    ∷ signature "uring_send_zc_fixed_sync" (span 1 (number 2) ∷ [])
    ∷ signature "uring_recv_zc_sync" (span 1 (number 2) ∷ [])
    ∷ signature "uring_epoll_wait_sync" (span 1 (number 2) ∷ [])
    ∷ signature "uring_waitid_sync" (span 2 (fixed 128) ∷ [])
    ∷ signature "uring_futex_waitv_sync" (span 0 (number 1) ∷ [])
    ∷ signature "uring_read_fixed_sync" (span 1 (number 2) ∷ [])
    ∷ signature "uring_write_fixed_sync" (span 1 (number 2) ∷ [])
    ∷ signature "uring_link_read_write_sync" (span 1 (number 2) ∷ [])
    ∷ signature "uring_pipe_sync" (span 0 (fixed 2) ∷ [])
    ∷ signature "uring_pipe_direct_sync" (span 0 (fixed 2) ∷ [])
    ∷ signature "uring_readv_sync" (span 1 (number 2) ∷ [])
    ∷ signature "uring_writev_sync" (span 1 (number 2) ∷ [])
    ∷ signature "uring_sendmsg_iov_sync" (span 1 (number 2) ∷ [])
    ∷ signature "uring_recvmsg_iov_sync" (span 1 (number 2) ∷ [])
    ∷ signature "uring_sendmsg_zc_iov_sync" (span 1 (number 2) ∷ [])
    ∷ signature "uring_sendmsg_zc_fixed_iov_sync" (span 1 (number 2) ∷ [])
    ∷ signature "uring_recvmsg_multishot_iov_sync" (span 1 (number 2) ∷ [])
    ∷ signature "uring_readv_fixed_sync" (span 1 (number 2) ∷ [])
    ∷ signature "uring_writev_fixed_sync" (span 1 (number 2) ∷ [])
    ∷ signature "uring_register_files" (span 0 (number 1) ∷ [])
    ∷ signature "uring_files_update_sync" (span 0 (number 1) ∷ [])
    ∷ signature "uring_register_buffers" (span 0 (number 1) ∷ [])
    ∷ signature "uring_probe_supported_mask" (span 0 (number 1) ∷ [])
    ∷ signature "uring_cmd_sock_sync" (span 4 (number 5) ∷ [])
    ∷ []

abbrev at : ℕ → List Arg → Option Arg
at n [] = none
at zero (a ∷ rest) = some a
at (suc n) (a ∷ rest) = at n rest

abbrev quantity : Option Arg → Option ℕ
quantity (some (integer (pos n))) = some n
quantity o = none

abbrev times : Option ℕ → Option ℕ → Option ℕ
times (some n) (some k) = some (n * k)
times o p = none

abbrev needed : Extent → List Arg → Option ℕ
needed (number i) args = quantity (at i args)
needed (fixed n) args = some n
needed (product i j) args = times (quantity (at i args)) (quantity (at j args))

-- `n` elements lie behind the pointer. C refuses NULL, or goes no further with it.
abbrev Within : Option ℕ → Option Arg → Type 0
Within o (some null) = Unit
Within (some n) (some (memory m)) = n ≤ m
Within (some n) (some (array p m)) = n ≤ m
Within (some n) (some (iovecs ns)) = n ≤ length ns
Within (some n) (some (longlongs ns)) = n ≤ length ns
Within o a = ⊥

abbrev EveryWithin : List Span → List Arg → Type 0
EveryWithin [] args = Unit
EveryWithin (span i e ∷ rest) args = Within (needed e args) (at i args) × EveryWithin rest args

abbrev FoundWithin : Option (List Span) → List Arg → Type 0
FoundWithin none args = ⊥
FoundWithin (some ss) args = EveryWithin ss args

-- Everything that C reads or writes behind the pointers of a request lies in the objects that Python
-- passed.
abbrev pub Fits : Request → Type 0
Fits r = FoundWithin (find r.function spans) r.args
