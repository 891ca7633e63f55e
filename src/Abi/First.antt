-- ===== src/Abi/First.antt =====
-- The first half of the `argtypes` of pyuring/native/uring_ctx.py, in the order of the source.
use pyuring.Prelude.{List, [], ◌∷◌}
use pyuring.Abi.Types.{
  Signature, signature, c_int, c_uint, c_longlong, c_int64, c_uint64, c_size_t, c_void_p, c_char_p,
  pointer_to, an_int, a_uint, an_iovec, a_timespec, an_open_how, an_epoll_event, CType,
}

abbrev pub first_signatures : List (Signature CType)
first_signatures =
    signature "uring_create" (c_uint ∷ [])
    ∷ signature "uring_create_ex" (c_uint ∷ c_uint ∷ c_int ∷ c_uint ∷ [])
    ∷ signature "uring_destroy" (c_void_p ∷ [])
    ∷ signature "uring_ring_fd" (c_void_p ∷ [])
    ∷ signature "uring_register_files" (c_void_p ∷ pointer_to an_int ∷ c_uint ∷ [])
    ∷ signature "uring_unregister_files" (c_void_p ∷ [])
    ∷ signature "uring_register_buffers" (c_void_p ∷ pointer_to an_iovec ∷ c_uint ∷ [])
    ∷ signature "uring_unregister_buffers" (c_void_p ∷ [])
    ∷ signature "uring_read_fixed_sync"
        (c_void_p ∷ c_uint ∷ c_void_p ∷ c_uint ∷ c_longlong ∷ c_uint ∷ [])
    ∷ signature "uring_write_fixed_sync"
        (c_void_p ∷ c_uint ∷ c_void_p ∷ c_uint ∷ c_longlong ∷ c_uint ∷ [])
    ∷ signature "uring_probe_opcode_supported" (c_void_p ∷ c_int ∷ [])
    ∷ signature "uring_probe_supported_mask" (c_void_p ∷ c_void_p ∷ c_uint ∷ [])
    ∷ signature "uring_probe_last_op" (c_void_p ∷ [])
    ∷ signature "uring_nop_sync" (c_void_p ∷ [])
    ∷ signature "uring_readv_sync"
        (c_void_p ∷ c_int ∷ pointer_to an_iovec ∷ c_uint ∷ c_longlong ∷ [])
    ∷ signature "uring_writev_sync"
        (c_void_p ∷ c_int ∷ pointer_to an_iovec ∷ c_uint ∷ c_longlong ∷ [])
    ∷ signature "uring_openat_sync" (c_void_p ∷ c_int ∷ c_char_p ∷ c_int ∷ c_uint ∷ [])
    ∷ signature "uring_close_sync" (c_void_p ∷ c_int ∷ [])
    ∷ signature "uring_fsync_sync" (c_void_p ∷ c_int ∷ c_uint ∷ [])
    ∷ signature "uring_fallocate_sync" (c_void_p ∷ c_int ∷ c_int ∷ c_uint64 ∷ c_uint64 ∷ [])
    ∷ signature "uring_statx_sync" (c_void_p ∷ c_int ∷ c_char_p ∷ c_int ∷ c_uint ∷ c_void_p ∷ [])
    ∷ signature "uring_statx_stx_size" (c_void_p ∷ [])
    ∷ signature "uring_renameat_sync" (c_void_p ∷ c_int ∷ c_char_p ∷ c_int ∷ c_char_p ∷ c_uint ∷ [])
    ∷ signature "uring_unlinkat_sync" (c_void_p ∷ c_int ∷ c_char_p ∷ c_int ∷ [])
    ∷ signature "uring_mkdirat_sync" (c_void_p ∷ c_int ∷ c_char_p ∷ c_uint ∷ [])
    ∷ signature "uring_send_sync" (c_void_p ∷ c_int ∷ c_void_p ∷ c_size_t ∷ c_uint ∷ [])
    ∷ signature "uring_recv_sync" (c_void_p ∷ c_int ∷ c_void_p ∷ c_size_t ∷ c_uint ∷ [])
    ∷ signature "uring_accept_sync" (c_void_p ∷ c_int ∷ c_void_p ∷ pointer_to a_uint ∷ c_int ∷ [])
    ∷ signature "uring_connect_sync" (c_void_p ∷ c_int ∷ c_void_p ∷ c_uint ∷ [])
    ∷ signature "uring_shutdown_sync" (c_void_p ∷ c_int ∷ c_int ∷ [])
    ∷ signature "uring_splice_sync"
        (c_void_p ∷ c_int ∷ c_int64 ∷ c_int ∷ c_int64 ∷ c_uint ∷ c_uint ∷ [])
    ∷ signature "uring_tee_sync" (c_void_p ∷ c_int ∷ c_int ∷ c_uint ∷ c_uint ∷ [])
    ∷ signature "uring_poll_add_sync" (c_void_p ∷ c_int ∷ c_uint ∷ c_uint64 ∷ [])
    ∷ signature "uring_poll_remove_sync" (c_void_p ∷ c_uint64 ∷ [])
    ∷ signature "uring_symlinkat_sync" (c_void_p ∷ c_char_p ∷ c_int ∷ c_char_p ∷ [])
    ∷ signature "uring_linkat_sync" (c_void_p ∷ c_int ∷ c_char_p ∷ c_int ∷ c_char_p ∷ c_int ∷ [])
    ∷ signature "uring_sync_file_range_sync" (c_void_p ∷ c_int ∷ c_uint ∷ c_uint64 ∷ c_int ∷ [])
    ∷ signature "uring_fadvise_sync" (c_void_p ∷ c_int ∷ c_uint64 ∷ c_uint ∷ c_int ∷ [])
    ∷ signature "uring_madvise_sync" (c_void_p ∷ c_void_p ∷ c_uint ∷ c_int ∷ [])
    ∷ signature "uring_async_cancel_fd_sync" (c_void_p ∷ c_int ∷ c_uint ∷ [])
    ∷ signature "uring_sendmsg_iov_sync"
        (c_void_p ∷ c_int ∷ pointer_to an_iovec ∷ c_uint ∷ c_uint ∷ [])
    ∷ signature "uring_recvmsg_iov_sync"
        (c_void_p ∷ c_int ∷ pointer_to an_iovec ∷ c_uint ∷ c_uint ∷ [])
    ∷ signature "uring_socket_sync" (c_void_p ∷ c_int ∷ c_int ∷ c_int ∷ c_uint ∷ [])
    ∷ signature "uring_pipe_sync" (c_void_p ∷ pointer_to an_int ∷ c_int ∷ [])
    ∷ signature "uring_bind_sync" (c_void_p ∷ c_int ∷ c_void_p ∷ c_uint ∷ [])
    ∷ signature "uring_listen_sync" (c_void_p ∷ c_int ∷ c_int ∷ [])
    ∷ signature "uring_openat2_sync" (c_void_p ∷ c_int ∷ c_char_p ∷ pointer_to an_open_how ∷ [])
    ∷ signature "uring_link_timeout_sync" (c_void_p ∷ pointer_to a_timespec ∷ c_uint ∷ [])
    ∷ signature "uring_getxattr_sync" (c_void_p ∷ c_char_p ∷ c_void_p ∷ c_char_p ∷ c_uint ∷ [])
    ∷ signature "uring_setxattr_sync"
        (c_void_p ∷ c_char_p ∷ c_char_p ∷ c_char_p ∷ c_int ∷ c_uint ∷ [])
    ∷ signature "uring_fgetxattr_sync" (c_void_p ∷ c_int ∷ c_char_p ∷ c_void_p ∷ c_uint ∷ [])
    ∷ signature "uring_fsetxattr_sync"
        (c_void_p ∷ c_int ∷ c_char_p ∷ c_char_p ∷ c_int ∷ c_uint ∷ [])
    ∷ signature "uring_epoll_ctl_sync"
        (c_void_p ∷ c_int ∷ c_int ∷ c_int ∷ pointer_to an_epoll_event ∷ [])
    ∷ signature "uring_provide_buffers_sync"
        (c_void_p ∷ c_void_p ∷ c_int ∷ c_int ∷ c_int ∷ c_int ∷ [])
    ∷ signature "uring_remove_buffers_sync" (c_void_p ∷ c_int ∷ c_int ∷ [])
    ∷ signature "uring_msg_ring_sync" (c_void_p ∷ c_int ∷ c_uint ∷ c_uint64 ∷ c_uint ∷ [])
    ∷ signature "uring_ftruncate_sync" (c_void_p ∷ c_int ∷ c_int64 ∷ [])
    ∷ signature "uring_nop128_sync" (c_void_p ∷ [])
    ∷ signature "uring_poll_update_sync" (c_void_p ∷ c_uint64 ∷ c_uint64 ∷ c_uint ∷ c_uint ∷ [])
    ∷ []
