-- ===== src/Uapi/Others.antt =====
-- The other constants of pyuring/native/constants.py, by name, in the order of the source.
use Prim.Native.Nat.{bit_or}
use pyuring.Prelude.{String, List, [], ◌∷◌, ℤ, pos, negsuc}
use pyuring.Uapi.Flags.{bit}

abbrev pub operation_flags : List (String × ℤ)
operation_flags =
    ("IORING_MSG_DATA", pos 0)
    ∷ ("IORING_MSG_SEND_FD", pos 1)
    ∷ ("AT_FDCWD", negsuc 99)
    ∷ ("AT_REMOVEDIR", pos 512)
    ∷ ("AT_SYMLINK_NOFOLLOW", pos 256)
    ∷ ("IORING_FSYNC_DATASYNC", pos (bit 0))
    ∷ ("STATX_BASIC_STATS", pos 2047)
    ∷ ("FALLOC_FL_KEEP_SIZE", pos 1)
    ∷ ("FALLOC_FL_ZERO_RANGE", pos 16)
    ∷ ("SPLICE_F_MOVE", pos 1)
    ∷ ("SPLICE_F_FD_IN_FIXED", pos (bit 31))
    ∷ ("IORING_FILE_INDEX_ALLOC", pos 4294967295)
    ∷ ("IORING_TIMEOUT_ABS", pos (bit 0))
    ∷ ("IORING_TIMEOUT_UPDATE", pos (bit 1))
    ∷ ("IORING_TIMEOUT_BOOTTIME", pos (bit 2))
    ∷ ("IORING_TIMEOUT_REALTIME", pos (bit 3))
    ∷ ("IORING_LINK_TIMEOUT_UPDATE", pos (bit 4))
    ∷ ("IORING_TIMEOUT_ETIME_SUCCESS", pos (bit 5))
    ∷ ("IORING_TIMEOUT_MULTISHOT", pos (bit 6))
    ∷ ("IORING_TIMEOUT_CLOCK_MASK", pos (bit_or (bit 2) (bit 3)))
    ∷ ("IORING_TIMEOUT_UPDATE_MASK", pos (bit_or (bit 1) (bit 4)))
    ∷ ("IORING_POLL_ADD_MULTI", pos (bit 0))
    ∷ ("IORING_POLL_UPDATE_EVENTS", pos (bit 1))
    ∷ ("IORING_POLL_UPDATE_USER_DATA", pos (bit 2))
    ∷ ("IORING_POLL_ADD_LEVEL", pos (bit 3))
    ∷ ("IORING_ASYNC_CANCEL_ALL", pos (bit 0))
    ∷ ("IORING_ASYNC_CANCEL_FD", pos (bit 1))
    ∷ ("IORING_ASYNC_CANCEL_ANY", pos (bit 2))
    ∷ ("IORING_ASYNC_CANCEL_FD_FIXED", pos (bit 3))
    ∷ ("IORING_ASYNC_CANCEL_USERDATA", pos (bit 4))
    ∷ ("IORING_ASYNC_CANCEL_OP", pos (bit 5))
    ∷ ("IORING_RECVSEND_POLL_FIRST", pos (bit 0))
    ∷ ("IORING_RECV_MULTISHOT", pos (bit 1))
    ∷ ("IORING_RECVSEND_FIXED_BUF", pos (bit 2))
    ∷ ("IORING_SEND_ZC_REPORT_USAGE", pos (bit 3))
    ∷ ("IORING_RECVSEND_BUNDLE", pos (bit 4))
    ∷ ("IORING_SEND_VECTORIZED", pos (bit 5))
    ∷ ("IORING_NOTIF_USAGE_ZC_COPIED", pos (bit 31))
    ∷ ("IORING_ACCEPT_MULTISHOT", pos (bit 0))
    ∷ ("IORING_ACCEPT_DONTWAIT", pos (bit 1))
    ∷ ("IORING_ACCEPT_POLL_FIRST", pos (bit 2))
    ∷ ("IORING_MSG_RING_CQE_SKIP", pos (bit 0))
    ∷ ("IORING_MSG_RING_FLAGS_PASS", pos (bit 1))
    ∷ ("IORING_FIXED_FD_NO_CLOEXEC", pos (bit 0))
    ∷ ("IORING_NOP_INJECT_RESULT", pos (bit 0))
    ∷ ("IORING_NOP_CQE32", pos (bit 5))
    ∷ ("IORING_CQE_F_BUFFER", pos (bit 0))
    ∷ []

abbrev pub completion_flags_and_advice : List (String × ℤ)
completion_flags_and_advice =
    ("IORING_CQE_F_MORE", pos (bit 1))
    ∷ ("IORING_CQE_F_SOCK_NONEMPTY", pos (bit 2))
    ∷ ("IORING_CQE_F_NOTIF", pos (bit 3))
    ∷ ("IORING_CQE_F_BUF_MORE", pos (bit 4))
    ∷ ("IORING_CQE_F_SKIP", pos (bit 5))
    ∷ ("IORING_CQE_F_32", pos (bit 15))
    ∷ ("IORING_CQE_BUFFER_SHIFT", pos 16)
    ∷ ("IORING_SQ_NEED_WAKEUP", pos (bit 0))
    ∷ ("IORING_SQ_CQ_OVERFLOW", pos (bit 1))
    ∷ ("IORING_SQ_TASKRUN", pos (bit 2))
    ∷ ("IORING_CQ_EVENTFD_DISABLED", pos (bit 0))
    ∷ ("IORING_ENTER_GETEVENTS", pos (bit 0))
    ∷ ("IORING_ENTER_SQ_WAKEUP", pos (bit 1))
    ∷ ("IORING_ENTER_SQ_WAIT", pos (bit 2))
    ∷ ("IORING_ENTER_EXT_ARG", pos (bit 3))
    ∷ ("IORING_ENTER_REGISTERED_RING", pos (bit 4))
    ∷ ("IORING_ENTER_ABS_TIMER", pos (bit 5))
    ∷ ("IORING_ENTER_EXT_ARG_REG", pos (bit 6))
    ∷ ("IORING_ENTER_NO_IOWAIT", pos (bit 7))
    ∷ ("IORING_URING_CMD_FIXED", pos (bit 0))
    ∷ ("IORING_OFF_SQ_RING", pos 0)
    ∷ ("IORING_OFF_CQ_RING", pos 134217728)
    ∷ ("IORING_OFF_SQES", pos 268435456)
    ∷ ("IORING_OFF_PBUF_RING", pos 2147483648)
    ∷ ("IORING_OFF_PBUF_SHIFT", pos 16)
    ∷ ("IORING_OFF_MMAP_MASK", pos 4160749568)
    ∷ ("IORING_RW_ATTR_FLAG_PI", pos (bit 0))
    ∷ ("SYNC_FILE_RANGE_WAIT_BEFORE", pos 1)
    ∷ ("SYNC_FILE_RANGE_WRITE", pos 2)
    ∷ ("SYNC_FILE_RANGE_WAIT_AFTER", pos 4)
    ∷ ("POSIX_FADV_NORMAL", pos 0)
    ∷ ("POSIX_FADV_RANDOM", pos 1)
    ∷ ("POSIX_FADV_SEQUENTIAL", pos 2)
    ∷ ("POSIX_FADV_WILLNEED", pos 3)
    ∷ ("POSIX_FADV_DONTNEED", pos 4)
    ∷ ("POSIX_FADV_NOREUSE", pos 5)
    ∷ ("MADV_NORMAL", pos 0)
    ∷ ("MADV_RANDOM", pos 1)
    ∷ ("MADV_SEQUENTIAL", pos 2)
    ∷ ("MADV_WILLNEED", pos 3)
    ∷ ("MADV_DONTNEED", pos 4)
    ∷ ("SOCKET_URING_OP_SIOCINQ", pos 0)
    ∷ ("SOCKET_URING_OP_SIOCOUTQ", pos 1)
    ∷ ("SOCKET_URING_OP_GETSOCKOPT", pos 2)
    ∷ ("SOCKET_URING_OP_SETSOCKOPT", pos 3)
    ∷ ("SOCKET_URING_OP_TX_TIMESTAMP", pos 4)
    ∷ ("SOCKET_URING_OP_GETSOCKNAME", pos 5)
    ∷ ("SIGINFO_T_SIZE", pos 128)
    ∷ []
