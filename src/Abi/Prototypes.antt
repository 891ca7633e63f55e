-- ===== src/Abi/Prototypes.antt =====
-- The prototypes of the extended operations of csrc/uring_wrap.c, in the order of the source.
use pyuring.Prelude.{List, [], ◌∷◌}
use pyuring.Abi.Types.{
  Signature, signature, CParam, c_signed, c_unsigned, text_pointer, opaque, pointer, an_int, a_uint,
  a_uint32, an_iovec, a_timespec, an_open_how, an_epoll_event, a_futex_waitv,
}

abbrev pub file_and_socket_prototypes : List (Signature CParam)
file_and_socket_prototypes =
    signature "uring_nop_sync" (opaque ∷ [])
    ∷ signature "uring_readv_sync"
        (opaque ∷ c_signed 32 ∷ pointer an_iovec ∷ c_unsigned 32 ∷ c_signed 64 ∷ [])
    ∷ signature "uring_writev_sync"
        (opaque ∷ c_signed 32 ∷ pointer an_iovec ∷ c_unsigned 32 ∷ c_signed 64 ∷ [])
    ∷ signature "uring_openat_sync"
        (opaque ∷ c_signed 32 ∷ text_pointer ∷ c_signed 32 ∷ c_unsigned 32 ∷ [])
    ∷ signature "uring_close_sync" (opaque ∷ c_signed 32 ∷ [])
    ∷ signature "uring_fsync_sync" (opaque ∷ c_signed 32 ∷ c_unsigned 32 ∷ [])
    ∷ signature "uring_fallocate_sync"
        (opaque ∷ c_signed 32 ∷ c_signed 32 ∷ c_unsigned 64 ∷ c_unsigned 64 ∷ [])
    ∷ signature "uring_statx_sync"
        (opaque ∷ c_signed 32 ∷ text_pointer ∷ c_signed 32 ∷ c_unsigned 32 ∷ opaque ∷ [])
    ∷ signature "uring_renameat_sync"
        (opaque ∷ c_signed 32 ∷ text_pointer ∷ c_signed 32 ∷ text_pointer ∷ c_unsigned 32 ∷ [])
    ∷ signature "uring_unlinkat_sync" (opaque ∷ c_signed 32 ∷ text_pointer ∷ c_signed 32 ∷ [])
    ∷ signature "uring_mkdirat_sync" (opaque ∷ c_signed 32 ∷ text_pointer ∷ c_unsigned 32 ∷ [])
    ∷ signature "uring_send_sync"
        (opaque ∷ c_signed 32 ∷ opaque ∷ c_unsigned 64 ∷ c_unsigned 32 ∷ [])
    ∷ signature "uring_recv_sync"
        (opaque ∷ c_signed 32 ∷ opaque ∷ c_unsigned 64 ∷ c_unsigned 32 ∷ [])
    ∷ signature "uring_accept_sync"
        (opaque ∷ c_signed 32 ∷ opaque ∷ pointer a_uint ∷ c_signed 32 ∷ [])
    ∷ signature "uring_connect_sync" (opaque ∷ c_signed 32 ∷ opaque ∷ c_unsigned 32 ∷ [])
    ∷ signature "uring_shutdown_sync" (opaque ∷ c_signed 32 ∷ c_signed 32 ∷ [])
    ∷ signature "uring_splice_sync" (
        opaque
        ∷ c_signed 32
        ∷ c_signed 64
        ∷ c_signed 32
        ∷ c_signed 64
        ∷ c_unsigned 32
        ∷ c_unsigned 32
        ∷ [])
    ∷ signature "uring_tee_sync"
        (opaque ∷ c_signed 32 ∷ c_signed 32 ∷ c_unsigned 32 ∷ c_unsigned 32 ∷ [])
    ∷ signature "uring_poll_add_sync" (opaque ∷ c_signed 32 ∷ c_unsigned 32 ∷ c_unsigned 64 ∷ [])
    ∷ signature "uring_poll_remove_sync" (opaque ∷ c_unsigned 64 ∷ [])
    ∷ signature "uring_symlinkat_sync" (opaque ∷ text_pointer ∷ c_signed 32 ∷ text_pointer ∷ [])
    ∷ signature "uring_linkat_sync"
        (opaque ∷ c_signed 32 ∷ text_pointer ∷ c_signed 32 ∷ text_pointer ∷ c_signed 32 ∷ [])
    ∷ signature "uring_sync_file_range_sync"
        (opaque ∷ c_signed 32 ∷ c_unsigned 32 ∷ c_unsigned 64 ∷ c_signed 32 ∷ [])
    ∷ signature "uring_fadvise_sync"
        (opaque ∷ c_signed 32 ∷ c_unsigned 64 ∷ c_unsigned 32 ∷ c_signed 32 ∷ [])
    ∷ signature "uring_madvise_sync" (opaque ∷ opaque ∷ c_unsigned 32 ∷ c_signed 32 ∷ [])
    ∷ signature "uring_async_cancel_fd_sync" (opaque ∷ c_signed 32 ∷ c_unsigned 32 ∷ [])
    ∷ signature "uring_sendmsg_iov_sync"
        (opaque ∷ c_signed 32 ∷ pointer an_iovec ∷ c_unsigned 32 ∷ c_unsigned 32 ∷ [])
    ∷ signature "uring_recvmsg_iov_sync"
        (opaque ∷ c_signed 32 ∷ pointer an_iovec ∷ c_unsigned 32 ∷ c_unsigned 32 ∷ [])
    ∷ signature "uring_socket_sync"
        (opaque ∷ c_signed 32 ∷ c_signed 32 ∷ c_signed 32 ∷ c_unsigned 32 ∷ [])
    ∷ signature "uring_pipe_sync" (opaque ∷ pointer an_int ∷ c_signed 32 ∷ [])
    ∷ signature "uring_bind_sync" (opaque ∷ c_signed 32 ∷ opaque ∷ c_unsigned 32 ∷ [])
    ∷ signature "uring_listen_sync" (opaque ∷ c_signed 32 ∷ c_signed 32 ∷ [])
    ∷ signature "uring_openat2_sync"
        (opaque ∷ c_signed 32 ∷ text_pointer ∷ pointer an_open_how ∷ [])
    ∷ signature "uring_link_timeout_sync" (opaque ∷ pointer a_timespec ∷ c_unsigned 32 ∷ [])
    ∷ signature "uring_getxattr_sync"
        (opaque ∷ text_pointer ∷ text_pointer ∷ text_pointer ∷ c_unsigned 32 ∷ [])
    ∷ signature "uring_setxattr_sync"
        (opaque ∷ text_pointer ∷ text_pointer ∷ text_pointer ∷ c_signed 32 ∷ c_unsigned 32 ∷ [])
    ∷ signature "uring_fgetxattr_sync"
        (opaque ∷ c_signed 32 ∷ text_pointer ∷ text_pointer ∷ c_unsigned 32 ∷ [])
    ∷ signature "uring_fsetxattr_sync"
        (opaque ∷ c_signed 32 ∷ text_pointer ∷ text_pointer ∷ c_signed 32 ∷ c_unsigned 32 ∷ [])
    ∷ signature "uring_epoll_ctl_sync"
        (opaque ∷ c_signed 32 ∷ c_signed 32 ∷ c_signed 32 ∷ pointer an_epoll_event ∷ [])
    ∷ signature "uring_provide_buffers_sync"
        (opaque ∷ opaque ∷ c_signed 32 ∷ c_signed 32 ∷ c_signed 32 ∷ c_signed 32 ∷ [])
    ∷ signature "uring_remove_buffers_sync" (opaque ∷ c_signed 32 ∷ c_signed 32 ∷ [])
    ∷ []

abbrev pub message_and_wait_prototypes : List (Signature CParam)
message_and_wait_prototypes =
    signature "uring_msg_ring_sync"
      (opaque ∷ c_signed 32 ∷ c_unsigned 32 ∷ c_unsigned 64 ∷ c_unsigned 32 ∷ [])
    ∷ signature "uring_ftruncate_sync" (opaque ∷ c_signed 32 ∷ c_signed 64 ∷ [])
    ∷ signature "uring_nop128_sync" (opaque ∷ [])
    ∷ signature "uring_poll_update_sync"
        (opaque ∷ c_unsigned 64 ∷ c_unsigned 64 ∷ c_unsigned 32 ∷ c_unsigned 32 ∷ [])
    ∷ signature "uring_timeout_update_sync"
        (opaque ∷ pointer a_timespec ∷ c_unsigned 64 ∷ c_unsigned 32 ∷ [])
    ∷ signature "uring_recv_multishot_sync"
        (opaque ∷ c_signed 32 ∷ opaque ∷ c_unsigned 64 ∷ c_signed 32 ∷ [])
    ∷ signature "uring_multishot_accept_submit"
        (opaque ∷ c_signed 32 ∷ c_signed 32 ∷ c_unsigned 64 ∷ [])
    ∷ signature "uring_recv_multishot_buf_group_submit"
        (opaque ∷ c_signed 32 ∷ c_unsigned 32 ∷ c_signed 32 ∷ c_unsigned 64 ∷ [])
    ∷ signature "uring_splice_submit" (
        opaque
        ∷ c_signed 32
        ∷ c_signed 64
        ∷ c_signed 32
        ∷ c_signed 64
        ∷ c_unsigned 32
        ∷ c_unsigned 32
        ∷ c_unsigned 64
        ∷ [])
    ∷ signature "uring_send_zc_sync"
        (opaque ∷ c_signed 32 ∷ opaque ∷ c_unsigned 64 ∷ c_signed 32 ∷ c_unsigned 32 ∷ [])
    ∷ signature "uring_send_zc_fixed_sync" (
        opaque
        ∷ c_signed 32
        ∷ opaque
        ∷ c_unsigned 64
        ∷ c_signed 32
        ∷ c_unsigned 32
        ∷ c_unsigned 32
        ∷ [])
    ∷ signature "uring_sendmsg_zc_iov_sync"
        (opaque ∷ c_signed 32 ∷ pointer an_iovec ∷ c_unsigned 32 ∷ c_unsigned 32 ∷ [])
    ∷ signature "uring_sendmsg_zc_fixed_iov_sync" (
        opaque
        ∷ c_signed 32
        ∷ pointer an_iovec
        ∷ c_unsigned 32
        ∷ c_unsigned 32
        ∷ c_unsigned 32
        ∷ [])
    ∷ signature "uring_recv_zc_sync"
        (opaque ∷ c_signed 32 ∷ opaque ∷ c_unsigned 32 ∷ c_unsigned 32 ∷ c_unsigned 32 ∷ [])
    ∷ signature "uring_recvmsg_multishot_iov_sync"
        (opaque ∷ c_signed 32 ∷ pointer an_iovec ∷ c_unsigned 32 ∷ c_unsigned 32 ∷ [])
    ∷ signature "uring_epoll_wait_sync"
        (opaque ∷ c_signed 32 ∷ pointer an_epoll_event ∷ c_signed 32 ∷ c_unsigned 32 ∷ [])
    ∷ signature "uring_waitid_sync"
        (opaque ∷ c_signed 32 ∷ c_signed 32 ∷ opaque ∷ c_signed 32 ∷ c_unsigned 32 ∷ [])
    ∷ signature "uring_futex_wake_sync" (
        opaque
        ∷ pointer a_uint32
        ∷ c_unsigned 64
        ∷ c_unsigned 64
        ∷ c_unsigned 32
        ∷ c_unsigned 32
        ∷ [])
    ∷ signature "uring_futex_wait_sync" (
        opaque
        ∷ pointer a_uint32
        ∷ c_unsigned 64
        ∷ c_unsigned 64
        ∷ c_unsigned 32
        ∷ c_unsigned 32
        ∷ [])
    ∷ signature "uring_futex_waitv_sync"
        (opaque ∷ pointer a_futex_waitv ∷ c_unsigned 32 ∷ c_unsigned 32 ∷ [])
    ∷ signature "uring_uring_cmd_sync" (opaque ∷ c_signed 32 ∷ c_signed 32 ∷ [])
    ∷ signature "uring_uring_cmd128_sync" (opaque ∷ c_signed 32 ∷ c_signed 32 ∷ [])
    ∷ signature "uring_cmd_sock_sync"
        (opaque ∷ c_signed 32 ∷ c_signed 32 ∷ c_signed 32 ∷ c_signed 32 ∷ opaque ∷ c_signed 32 ∷ [])
    ∷ signature "uring_cmd_getsockname_sync"
        (opaque ∷ c_signed 32 ∷ opaque ∷ pointer a_uint ∷ c_signed 32 ∷ [])
    ∷ signature "uring_fixed_fd_install_sync" (opaque ∷ c_signed 32 ∷ c_unsigned 32 ∷ [])
    ∷ signature "uring_socket_direct_sync"
        (opaque ∷ c_signed 32 ∷ c_signed 32 ∷ c_signed 32 ∷ c_unsigned 32 ∷ c_unsigned 32 ∷ [])
    ∷ signature "uring_socket_direct_alloc_sync"
        (opaque ∷ c_signed 32 ∷ c_signed 32 ∷ c_signed 32 ∷ c_unsigned 32 ∷ [])
    ∷ signature "uring_pipe_direct_sync"
        (opaque ∷ pointer an_int ∷ c_signed 32 ∷ c_unsigned 32 ∷ [])
    ∷ signature "uring_msg_ring_fd_sync"
        (opaque ∷ c_signed 32 ∷ c_signed 32 ∷ c_signed 32 ∷ c_unsigned 64 ∷ c_unsigned 32 ∷ [])
    ∷ signature "uring_msg_ring_fd_alloc_sync"
        (opaque ∷ c_signed 32 ∷ c_signed 32 ∷ c_unsigned 64 ∷ c_unsigned 32 ∷ [])
    ∷ signature "uring_msg_ring_cqe_flags_sync"
        (opaque ∷ c_signed 32 ∷ c_unsigned 32 ∷ c_unsigned 64 ∷ c_unsigned 32 ∷ c_unsigned 32 ∷ [])
    ∷ signature "uring_files_update_sync"
        (opaque ∷ pointer an_int ∷ c_unsigned 32 ∷ c_signed 32 ∷ [])
    ∷ signature "uring_send_bundle_sync" (opaque ∷ c_signed 32 ∷ c_unsigned 64 ∷ c_signed 32 ∷ [])
    ∷ signature "uring_readv_fixed_sync" (
        opaque
        ∷ c_signed 32
        ∷ pointer an_iovec
        ∷ c_unsigned 32
        ∷ c_unsigned 64
        ∷ c_signed 32
        ∷ c_signed 32
        ∷ [])
    ∷ signature "uring_writev_fixed_sync" (
        opaque
        ∷ c_signed 32
        ∷ pointer an_iovec
        ∷ c_unsigned 32
        ∷ c_unsigned 64
        ∷ c_signed 32
        ∷ c_signed 32
        ∷ [])
    ∷ signature "uring_sendto_sync"
        (opaque ∷ c_signed 32 ∷ opaque ∷ c_unsigned 64 ∷ c_signed 32 ∷ opaque ∷ c_unsigned 32 ∷ [])
    ∷ signature "uring_timeout_sync"
        (opaque ∷ pointer a_timespec ∷ c_unsigned 32 ∷ c_unsigned 32 ∷ c_unsigned 64 ∷ [])
    ∷ signature "uring_timeout_remove_sync" (opaque ∷ c_unsigned 64 ∷ c_unsigned 32 ∷ [])
    ∷ signature "uring_async_cancel_sync" (opaque ∷ c_unsigned 64 ∷ c_unsigned 32 ∷ [])
    ∷ signature "uring_link_read_write_sync" (
        opaque
        ∷ c_signed 32
        ∷ opaque
        ∷ c_unsigned 32
        ∷ c_signed 64
        ∷ c_signed 32
        ∷ c_signed 64
        ∷ [])
    ∷ signature "uring_statx_stx_size" (opaque ∷ [])
    ∷ signature "uring_timeout_arm_remove_pair_sync"
        (opaque ∷ c_signed 64 ∷ c_signed 64 ∷ c_unsigned 64 ∷ [])
    ∷ []
