-- ===== src/Sync/Waits.antt =====
-- Polls, timeouts, futexes and cancellation: methods of `UringCtx` in pyuring/native/uring_ctx.py.
use pyuring.Prelude.{
  ℕ, zero, suc, Bool, Option, none, some, [], ◌∷◌, ℤ, pos, negsuc, ltb, if◌then◌else◌,
}
use pyuring.Errors.{Result, ok, err, value_error}
use pyuring.Abi.Types.{an_epoll_event, a_futex_waitv}
use pyuring.Abi.Convert.{Arg, null, byref_of_int, integer, array, timespec}
use pyuring.Sync.Request.{
  request_of, Buffer, Request, no_result, int_result, masked32, masked64, size, from_buffer,
  nothing_at_timeout,
}

abbrev pub poll_add : ℤ → ℤ → ℤ → Request
poll_add fd poll_mask user_data =
    int_result "uring_poll_add_sync" (integer fd ∷ masked32 poll_mask ∷ masked64 user_data ∷ [])

abbrev pub poll_remove : ℤ → Request
poll_remove target_user_data = no_result "uring_poll_remove_sync" (masked64 target_user_data ∷ [])

abbrev pub async_cancel_fd : ℤ → ℤ → Request
async_cancel_fd fd flags = no_result "uring_async_cancel_fd_sync" (integer fd ∷ masked32 flags ∷ [])

abbrev pub link_timeout : ℤ → ℤ → ℤ → Request
link_timeout sec nsec flags =
    no_result "uring_link_timeout_sync" (timespec sec nsec ∷ masked32 flags ∷ [])

abbrev pub epoll_ctl : ℤ → ℤ → ℤ → Bool → Request
epoll_ctl epfd fd op has_event = no_result "uring_epoll_ctl_sync" (
    integer epfd
    ∷ integer fd
    ∷ integer op
    ∷ (if has_event then array an_epoll_event 1 else null)
    ∷ [])

abbrev pub poll_update : ℤ → ℤ → ℤ → ℤ → Request
poll_update old_user_data new_user_data poll_mask flags =
    no_result "uring_poll_update_sync"
      (masked64 old_user_data ∷ masked64 new_user_data ∷ masked32 poll_mask ∷ masked32 flags ∷ [])

abbrev pub timeout_update : ℤ → ℤ → ℤ → ℤ → Request
timeout_update target_user_data sec nsec flags =
    no_result "uring_timeout_update_sync"
      (timespec sec nsec ∷ masked64 target_user_data ∷ masked32 flags ∷ [])

abbrev pub epoll_wait : ℤ → ℤ → ℤ → Result Request
epoll_wait epfd (negsuc n) flags = err value_error
epoll_wait epfd (pos zero) flags = err value_error
epoll_wait epfd (pos (suc n)) flags = ok (
    int_result "uring_epoll_wait_sync"
      (integer epfd ∷ array an_epoll_event (suc n) ∷ size (suc n) ∷ masked32 flags ∷ []))

-- `SIGINFO_T_SIZE`
abbrev pub siginfo_size : ℕ
siginfo_size = 128

abbrev pub siginfo : Option Buffer → Result Arg
siginfo none = ok null
siginfo (some info) =
    if ltb info.len siginfo_size then err value_error else from_buffer info.len info

abbrev pub waitid : ℤ → ℤ → ℤ → ℤ → Option Buffer → Result Request
waitid idtype pid options flags info = request_of (siginfo info) (λ inf.
    int_result "uring_waitid_sync"
      (integer idtype ∷ integer pid ∷ inf ∷ integer options ∷ masked32 flags ∷ []))

-- `byref(w[0])`, in which `w[0]` is an `int`.
abbrev pub futex_wake : Buffer → ℤ → ℤ → ℤ → ℤ → Result Request
futex_wake uaddr val mask futex_flags flags = request_of (from_buffer 4 uaddr) (λ w.
    int_result "uring_futex_wake_sync"
      (byref_of_int ∷ masked64 val ∷ masked64 mask ∷ masked32 futex_flags ∷ masked32 flags ∷ []))

abbrev pub futex_wait : Buffer → ℤ → ℤ → ℤ → ℤ → Result Request
futex_wait uaddr val mask futex_flags flags = request_of (from_buffer 4 uaddr) (λ w.
    int_result "uring_futex_wait_sync"
      (byref_of_int ∷ masked64 val ∷ masked64 mask ∷ masked32 futex_flags ∷ masked32 flags ∷ []))

abbrev pub futex_waitv : ℕ → ℤ → Result Request
futex_waitv zero flags = err value_error
futex_waitv (suc n) flags = ok (
    int_result "uring_futex_waitv_sync"
      (array a_futex_waitv (suc n) ∷ size (suc n) ∷ masked32 flags ∷ []))

abbrev pub timeout : ℤ → ℤ → ℤ → ℤ → ℤ → Request
timeout sec nsec count timeout_flags user_data =
    record (no_result "uring_timeout_sync"
      (timespec sec nsec ∷ masked32 count ∷ masked32 timeout_flags ∷ masked64 user_data ∷ [])) {
        gives = nothing_at_timeout;
      }

abbrev pub timeout_remove : ℤ → ℤ → Request
timeout_remove target_user_data flags =
    no_result "uring_timeout_remove_sync" (masked64 target_user_data ∷ masked32 flags ∷ [])

abbrev pub async_cancel : ℤ → ℤ → Request
async_cancel user_data flags =
    no_result "uring_async_cancel_sync" (masked64 user_data ∷ masked32 flags ∷ [])

abbrev pub timeout_arm_remove_pair : ℤ → ℤ → ℤ → Request
timeout_arm_remove_pair sec nsec user_data =
    no_result "uring_timeout_arm_remove_pair_sync"
      (integer sec ∷ integer nsec ∷ masked64 user_data ∷ [])
