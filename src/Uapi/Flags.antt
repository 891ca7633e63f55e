-- ===== src/Uapi/Flags.antt =====
-- The flags and the operations of pyuring/native/constants.py, by name.
use pyuring.Prelude.{ℕ, ◌^◌, String, List, [], ◌∷◌}

-- `1 << n`
abbrev pub bit : ℕ → ℕ
bit n = 2 ^ n

-- `IORING_SETUP_*`
abbrev pub setup_flags : List (String × ℕ)
setup_flags =
    ("IORING_SETUP_IOPOLL", bit 0)
    ∷ ("IORING_SETUP_SQPOLL", bit 1)
    ∷ ("IORING_SETUP_SQ_AFF", bit 2)
    ∷ ("IORING_SETUP_CQSIZE", bit 3)
    ∷ ("IORING_SETUP_CLAMP", bit 4)
    ∷ ("IORING_SETUP_ATTACH_WQ", bit 5)
    ∷ ("IORING_SETUP_R_DISABLED", bit 6)
    ∷ ("IORING_SETUP_SUBMIT_ALL", bit 7)
    ∷ ("IORING_SETUP_COOP_TASKRUN", bit 8)
    ∷ ("IORING_SETUP_TASKRUN_FLAG", bit 9)
    ∷ ("IORING_SETUP_SQE128", bit 10)
    ∷ ("IORING_SETUP_CQE32", bit 11)
    ∷ ("IORING_SETUP_SINGLE_ISSUER", bit 12)
    ∷ ("IORING_SETUP_DEFER_TASKRUN", bit 13)
    ∷ ("IORING_SETUP_NO_MMAP", bit 14)
    ∷ ("IORING_SETUP_REGISTERED_FD_ONLY", bit 15)
    ∷ ("IORING_SETUP_NO_SQARRAY", bit 16)
    ∷ ("IORING_SETUP_HYBRID_IOPOLL", bit 17)
    ∷ ("IORING_SETUP_CQE_MIXED", bit 18)
    ∷ ("IORING_SETUP_SQE_MIXED", bit 19)
    ∷ ("IORING_SETUP_SQ_REWIND", bit 20)
    ∷ []

-- `IOSQE_*`
abbrev pub sqe_flags : List (String × ℕ)
sqe_flags =
    ("IOSQE_FIXED_FILE", bit 0)
    ∷ ("IOSQE_IO_DRAIN", bit 1)
    ∷ ("IOSQE_IO_LINK", bit 2)
    ∷ ("IOSQE_IO_HARDLINK", bit 3)
    ∷ ("IOSQE_ASYNC", bit 4)
    ∷ ("IOSQE_BUFFER_SELECT", bit 5)
    ∷ ("IOSQE_CQE_SKIP_SUCCESS", bit 6)
    ∷ []

-- `IORING_OP_*`
abbrev pub opcodes : List (String × ℕ)
opcodes =
    ("IORING_OP_NOP", 0)
    ∷ ("IORING_OP_READV", 1)
    ∷ ("IORING_OP_WRITEV", 2)
    ∷ ("IORING_OP_FSYNC", 3)
    ∷ ("IORING_OP_READ_FIXED", 4)
    ∷ ("IORING_OP_WRITE_FIXED", 5)
    ∷ ("IORING_OP_POLL_ADD", 6)
    ∷ ("IORING_OP_POLL_REMOVE", 7)
    ∷ ("IORING_OP_SYNC_FILE_RANGE", 8)
    ∷ ("IORING_OP_SENDMSG", 9)
    ∷ ("IORING_OP_RECVMSG", 10)
    ∷ ("IORING_OP_TIMEOUT", 11)
    ∷ ("IORING_OP_TIMEOUT_REMOVE", 12)
    ∷ ("IORING_OP_ACCEPT", 13)
    ∷ ("IORING_OP_ASYNC_CANCEL", 14)
    ∷ ("IORING_OP_LINK_TIMEOUT", 15)
    ∷ ("IORING_OP_CONNECT", 16)
    ∷ ("IORING_OP_FALLOCATE", 17)
    ∷ ("IORING_OP_OPENAT", 18)
    ∷ ("IORING_OP_CLOSE", 19)
    ∷ ("IORING_OP_FILES_UPDATE", 20)
    ∷ ("IORING_OP_STATX", 21)
    ∷ ("IORING_OP_READ", 22)
    ∷ ("IORING_OP_WRITE", 23)
    ∷ ("IORING_OP_FADVISE", 24)
    ∷ ("IORING_OP_MADVISE", 25)
    ∷ ("IORING_OP_SEND", 26)
    ∷ ("IORING_OP_RECV", 27)
    ∷ ("IORING_OP_OPENAT2", 28)
    ∷ ("IORING_OP_EPOLL_CTL", 29)
    ∷ ("IORING_OP_SPLICE", 30)
    ∷ ("IORING_OP_PROVIDE_BUFFERS", 31)
    ∷ ("IORING_OP_REMOVE_BUFFERS", 32)
    ∷ ("IORING_OP_TEE", 33)
    ∷ ("IORING_OP_SHUTDOWN", 34)
    ∷ ("IORING_OP_RENAMEAT", 35)
    ∷ ("IORING_OP_UNLINKAT", 36)
    ∷ ("IORING_OP_MKDIRAT", 37)
    ∷ ("IORING_OP_SYMLINKAT", 38)
    ∷ ("IORING_OP_LINKAT", 39)
    ∷ ("IORING_OP_MSG_RING", 40)
    ∷ ("IORING_OP_FSETXATTR", 41)
    ∷ ("IORING_OP_SETXATTR", 42)
    ∷ ("IORING_OP_FGETXATTR", 43)
    ∷ ("IORING_OP_GETXATTR", 44)
    ∷ ("IORING_OP_SOCKET", 45)
    ∷ ("IORING_OP_URING_CMD", 46)
    ∷ ("IORING_OP_SEND_ZC", 47)
    ∷ ("IORING_OP_SENDMSG_ZC", 48)
    ∷ ("IORING_OP_READ_MULTISHOT", 49)
    ∷ ("IORING_OP_WAITID", 50)
    ∷ ("IORING_OP_FUTEX_WAIT", 51)
    ∷ ("IORING_OP_FUTEX_WAKE", 52)
    ∷ ("IORING_OP_FUTEX_WAITV", 53)
    ∷ ("IORING_OP_FIXED_FD_INSTALL", 54)
    ∷ ("IORING_OP_FTRUNCATE", 55)
    ∷ ("IORING_OP_BIND", 56)
    ∷ ("IORING_OP_LISTEN", 57)
    ∷ ("IORING_OP_RECV_ZC", 58)
    ∷ ("IORING_OP_EPOLL_WAIT", 59)
    ∷ ("IORING_OP_READV_FIXED", 60)
    ∷ ("IORING_OP_WRITEV_FIXED", 61)
    ∷ ("IORING_OP_PIPE", 62)
    ∷ ("IORING_OP_NOP128", 63)
    ∷ ("IORING_OP_URING_CMD128", 64)
    ∷ ("IORING_OP_LAST", 65)
    ∷ []
