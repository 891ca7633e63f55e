-- ===== src/Abi/Second.antt =====
-- The second half of the `argtypes` of pyuring/native/uring_ctx.py, in the order of the source.
use pyuring.Prelude.{List, [], ◌∷◌}
use pyuring.Abi.Types.{
  Signature, signature, c_int, c_uint, c_longlong, c_int64, c_uint64, c_size_t, c_void_p, c_char_p,
  pointer_to, an_int, a_uint, a_uint32, a_uint64, an_iovec, a_timespec, an_epoll_event,
  a_futex_waitv, CType,
}

abbrev pub second_signatures : List (Signature CType)
second_signatures =
    signature "uring_timeout_update_sync"
      (c_void_p ∷ pointer_to a_timespec ∷ c_uint64 ∷ c_uint ∷ [])
    ∷ signature "uring_recv_multishot_sync" (c_void_p ∷ c_int ∷ c_void_p ∷ c_size_t ∷ c_int ∷ [])
    ∷ signature "uring_send_zc_sync" (c_void_p ∷ c_int ∷ c_void_p ∷ c_size_t ∷ c_int ∷ c_uint ∷ [])
    ∷ signature "uring_send_zc_fixed_sync"
        (c_void_p ∷ c_int ∷ c_void_p ∷ c_size_t ∷ c_int ∷ c_uint ∷ c_uint ∷ [])
    ∷ signature "uring_sendmsg_zc_iov_sync"
        (c_void_p ∷ c_int ∷ pointer_to an_iovec ∷ c_uint ∷ c_uint ∷ [])
    ∷ signature "uring_sendmsg_zc_fixed_iov_sync"
        (c_void_p ∷ c_int ∷ pointer_to an_iovec ∷ c_uint ∷ c_uint ∷ c_uint ∷ [])
    ∷ signature "uring_recv_zc_sync" (c_void_p ∷ c_int ∷ c_void_p ∷ c_uint ∷ c_uint ∷ c_uint ∷ [])
    ∷ signature "uring_recvmsg_multishot_iov_sync"
        (c_void_p ∷ c_int ∷ pointer_to an_iovec ∷ c_uint ∷ c_uint ∷ [])
    ∷ signature "uring_epoll_wait_sync"
        (c_void_p ∷ c_int ∷ pointer_to an_epoll_event ∷ c_int ∷ c_uint ∷ [])
    ∷ signature "uring_waitid_sync" (c_void_p ∷ c_int ∷ c_int ∷ c_void_p ∷ c_int ∷ c_uint ∷ [])
    ∷ signature "uring_futex_wake_sync"
        (c_void_p ∷ pointer_to a_uint32 ∷ c_uint64 ∷ c_uint64 ∷ c_uint ∷ c_uint ∷ [])
    ∷ signature "uring_futex_wait_sync"
        (c_void_p ∷ pointer_to a_uint32 ∷ c_uint64 ∷ c_uint64 ∷ c_uint ∷ c_uint ∷ [])
    ∷ signature "uring_futex_waitv_sync"
        (c_void_p ∷ pointer_to a_futex_waitv ∷ c_uint ∷ c_uint ∷ [])
    ∷ signature "uring_uring_cmd_sync" (c_void_p ∷ c_int ∷ c_int ∷ [])
    ∷ signature "uring_uring_cmd128_sync" (c_void_p ∷ c_int ∷ c_int ∷ [])
    ∷ signature "uring_cmd_sock_sync"
        (c_void_p ∷ c_int ∷ c_int ∷ c_int ∷ c_int ∷ c_void_p ∷ c_int ∷ [])
    ∷ signature "uring_cmd_getsockname_sync"
        (c_void_p ∷ c_int ∷ c_void_p ∷ pointer_to a_uint ∷ c_int ∷ [])
    ∷ signature "uring_fixed_fd_install_sync" (c_void_p ∷ c_int ∷ c_uint ∷ [])
    ∷ signature "uring_socket_direct_sync" (c_void_p ∷ c_int ∷ c_int ∷ c_int ∷ c_uint ∷ c_uint ∷ [])
    ∷ signature "uring_socket_direct_alloc_sync" (c_void_p ∷ c_int ∷ c_int ∷ c_int ∷ c_uint ∷ [])
    ∷ signature "uring_pipe_direct_sync" (c_void_p ∷ pointer_to an_int ∷ c_int ∷ c_uint ∷ [])
    ∷ signature "uring_msg_ring_fd_sync" (c_void_p ∷ c_int ∷ c_int ∷ c_int ∷ c_uint64 ∷ c_uint ∷ [])
    ∷ signature "uring_msg_ring_fd_alloc_sync" (c_void_p ∷ c_int ∷ c_int ∷ c_uint64 ∷ c_uint ∷ [])
    ∷ signature "uring_msg_ring_cqe_flags_sync"
        (c_void_p ∷ c_int ∷ c_uint ∷ c_uint64 ∷ c_uint ∷ c_uint ∷ [])
    ∷ signature "uring_files_update_sync" (c_void_p ∷ pointer_to an_int ∷ c_uint ∷ c_int ∷ [])
    ∷ signature "uring_send_bundle_sync" (c_void_p ∷ c_int ∷ c_size_t ∷ c_int ∷ [])
    ∷ signature "uring_readv_fixed_sync"
        (c_void_p ∷ c_int ∷ pointer_to an_iovec ∷ c_uint ∷ c_uint64 ∷ c_int ∷ c_int ∷ [])
    ∷ signature "uring_writev_fixed_sync"
        (c_void_p ∷ c_int ∷ pointer_to an_iovec ∷ c_uint ∷ c_uint64 ∷ c_int ∷ c_int ∷ [])
    ∷ signature "uring_sendto_sync"
        (c_void_p ∷ c_int ∷ c_void_p ∷ c_size_t ∷ c_int ∷ c_void_p ∷ c_uint ∷ [])
    ∷ signature "uring_timeout_sync"
        (c_void_p ∷ pointer_to a_timespec ∷ c_uint ∷ c_uint ∷ c_uint64 ∷ [])
    ∷ signature "uring_timeout_remove_sync" (c_void_p ∷ c_uint64 ∷ c_uint ∷ [])
    ∷ signature "uring_async_cancel_sync" (c_void_p ∷ c_uint64 ∷ c_uint ∷ [])
    ∷ signature "uring_link_read_write_sync"
        (c_void_p ∷ c_int ∷ c_void_p ∷ c_uint ∷ c_longlong ∷ c_int ∷ c_longlong ∷ [])
    ∷ signature "uring_timeout_arm_remove_pair_sync" (c_void_p ∷ c_int64 ∷ c_int64 ∷ c_uint64 ∷ [])
    ∷ signature "uring_read_sync" (c_void_p ∷ c_int ∷ c_void_p ∷ c_uint ∷ c_longlong ∷ [])
    ∷ signature "uring_write_sync" (c_void_p ∷ c_int ∷ c_void_p ∷ c_uint ∷ c_longlong ∷ [])
    ∷ signature "uring_read_batch_sync"
        (c_void_p ∷ c_int ∷ c_void_p ∷ c_uint ∷ c_uint ∷ c_longlong ∷ [])
    ∷ signature "uring_read_offsets_sync"
        (c_void_p ∷ c_int ∷ c_void_p ∷ c_uint ∷ c_void_p ∷ c_uint ∷ [])
    ∷ signature "uring_copy_path" (c_char_p ∷ c_char_p ∷ c_uint ∷ c_uint ∷ [])
    ∷ signature "uring_read_async"
        (c_void_p ∷ c_int ∷ c_void_p ∷ c_uint ∷ c_longlong ∷ c_uint64 ∷ [])
    ∷ signature "uring_write_async"
        (c_void_p ∷ c_int ∷ c_void_p ∷ c_uint ∷ c_longlong ∷ c_uint64 ∷ [])
    ∷ signature "uring_multishot_accept_submit" (c_void_p ∷ c_int ∷ c_int ∷ c_uint64 ∷ [])
    ∷ signature "uring_recv_multishot_buf_group_submit"
        (c_void_p ∷ c_int ∷ c_uint ∷ c_int ∷ c_uint64 ∷ [])
    ∷ signature "uring_splice_submit"
        (c_void_p ∷ c_int ∷ c_longlong ∷ c_int ∷ c_longlong ∷ c_uint ∷ c_uint ∷ c_uint64 ∷ [])
    ∷ signature "uring_wait_completion" (c_void_p ∷ pointer_to a_uint64 ∷ pointer_to an_int ∷ [])
    ∷ signature "uring_peek_completion" (c_void_p ∷ pointer_to a_uint64 ∷ pointer_to an_int ∷ [])
    ∷ signature "uring_submit" (c_void_p ∷ [])
    ∷ signature "uring_submit_and_wait" (c_void_p ∷ c_uint ∷ [])
    ∷ signature "uring_buffer_pool_create" (c_uint ∷ c_uint ∷ [])
    ∷ signature "uring_buffer_pool_destroy" (c_void_p ∷ [])
    ∷ signature "uring_buffer_pool_resize" (c_void_p ∷ c_uint ∷ c_uint ∷ [])
    ∷ signature "uring_buffer_pool_get" (c_void_p ∷ c_uint ∷ pointer_to a_uint ∷ [])
    ∷ signature "uring_buffer_pool_set_size" (c_void_p ∷ c_uint ∷ c_uint ∷ [])
    ∷ []
