-- ===== src/Abi/Core.antt =====
-- The prototypes of csrc/uring_wrap.c that have `argtypes`, up to the extended operations.
use pyuring.Prelude.{List, [], ◌∷◌}
use pyuring.Abi.Types.{
  Signature, signature, CParam, c_signed, c_unsigned, text_pointer, opaque, pointer, an_int, a_uint,
  a_uint64, an_iovec,
}

abbrev pub core_prototypes : List (Signature CParam)
core_prototypes =
    signature "uring_create_ex" (c_unsigned 32 ∷ c_unsigned 32 ∷ c_signed 32 ∷ c_unsigned 32 ∷ [])
    ∷ signature "uring_create" (c_unsigned 32 ∷ [])
    ∷ signature "uring_destroy" (opaque ∷ [])
    ∷ signature "uring_ring_fd" (opaque ∷ [])
    ∷ signature "uring_register_files" (opaque ∷ pointer an_int ∷ c_unsigned 32 ∷ [])
    ∷ signature "uring_unregister_files" (opaque ∷ [])
    ∷ signature "uring_register_buffers" (opaque ∷ pointer an_iovec ∷ c_unsigned 32 ∷ [])
    ∷ signature "uring_unregister_buffers" (opaque ∷ [])
    ∷ signature "uring_read_fixed_sync"
        (opaque ∷ c_unsigned 32 ∷ opaque ∷ c_unsigned 32 ∷ c_signed 64 ∷ c_unsigned 32 ∷ [])
    ∷ signature "uring_write_fixed_sync"
        (opaque ∷ c_unsigned 32 ∷ opaque ∷ c_unsigned 32 ∷ c_signed 64 ∷ c_unsigned 32 ∷ [])
    ∷ signature "uring_probe_opcode_supported" (opaque ∷ c_signed 32 ∷ [])
    ∷ signature "uring_probe_supported_mask" (opaque ∷ opaque ∷ c_unsigned 32 ∷ [])
    ∷ signature "uring_probe_last_op" (opaque ∷ [])
    ∷ signature "uring_read_sync" (opaque ∷ c_signed 32 ∷ opaque ∷ c_unsigned 32 ∷ c_signed 64 ∷ [])
    ∷ signature "uring_write_sync"
        (opaque ∷ c_signed 32 ∷ opaque ∷ c_unsigned 32 ∷ c_signed 64 ∷ [])
    ∷ signature "uring_buffer_pool_create" (c_unsigned 32 ∷ c_unsigned 32 ∷ [])
    ∷ signature "uring_buffer_pool_resize" (opaque ∷ c_unsigned 32 ∷ c_unsigned 32 ∷ [])
    ∷ signature "uring_buffer_pool_get" (opaque ∷ c_unsigned 32 ∷ pointer a_uint ∷ [])
    ∷ signature "uring_buffer_pool_set_size" (opaque ∷ c_unsigned 32 ∷ c_unsigned 32 ∷ [])
    ∷ signature "uring_buffer_pool_destroy" (opaque ∷ [])
    ∷ signature "uring_read_async"
        (opaque ∷ c_signed 32 ∷ opaque ∷ c_unsigned 32 ∷ c_signed 64 ∷ c_unsigned 64 ∷ [])
    ∷ signature "uring_write_async"
        (opaque ∷ c_signed 32 ∷ opaque ∷ c_unsigned 32 ∷ c_signed 64 ∷ c_unsigned 64 ∷ [])
    ∷ signature "uring_wait_completion" (opaque ∷ pointer a_uint64 ∷ pointer an_int ∷ [])
    ∷ signature "uring_peek_completion" (opaque ∷ pointer a_uint64 ∷ pointer an_int ∷ [])
    ∷ signature "uring_submit" (opaque ∷ [])
    ∷ signature "uring_submit_and_wait" (opaque ∷ c_unsigned 32 ∷ [])
    ∷ signature "uring_read_batch_sync"
        (opaque ∷ c_signed 32 ∷ opaque ∷ c_unsigned 32 ∷ c_unsigned 32 ∷ c_signed 64 ∷ [])
    ∷ signature "uring_read_offsets_sync"
        (opaque ∷ c_signed 32 ∷ opaque ∷ c_unsigned 32 ∷ opaque ∷ c_unsigned 32 ∷ [])
    ∷ signature "uring_copy_path" (text_pointer ∷ text_pointer ∷ c_unsigned 32 ∷ c_unsigned 32 ∷ [])
    ∷ []
