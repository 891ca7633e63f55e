-- ===== src/Sync/Messages.antt =====
-- Pipes, messages between rings, commands and fixed buffers: methods of `UringCtx` in pyuring/native/uring_ctx.py.
use pyuring.Prelude.{[], ◌∷◌, ℤ}
use pyuring.Errors.{Result}
use pyuring.Abi.Types.{an_int}
use pyuring.Abi.Convert.{integer, array}
use pyuring.Sync.Request.{
  Buffer, Request, no_result, int_result, masked32, masked64, size, with_buffer,
}

abbrev pub read_fixed : ℤ → Buffer → ℤ → ℤ → Result Request
read_fixed file_index buf offset buf_index = with_buffer buf.len buf (λ arr.
    int_result "uring_read_fixed_sync"
      (integer file_index ∷ arr ∷ size buf.len ∷ integer offset ∷ integer buf_index ∷ []))

abbrev pub write_fixed : ℤ → Buffer → ℤ → ℤ → Result Request
write_fixed file_index payload offset buf_index = with_buffer payload.len payload (λ arr.
    int_result "uring_write_fixed_sync"
      (integer file_index ∷ arr ∷ size payload.len ∷ integer offset ∷ integer buf_index ∷ []))

abbrev pub probe_opcode_supported : ℤ → Request
probe_opcode_supported opcode = int_result "uring_probe_opcode_supported" (integer opcode ∷ [])

abbrev pub probe_last_op : Request
probe_last_op = int_result "uring_probe_last_op" ([])

abbrev pub nop : Request
nop = no_result "uring_nop_sync" ([])

abbrev pub splice : ℤ → ℤ → ℤ → ℤ → ℤ → ℤ → Request
splice fd_in off_in fd_out off_out nbytes flags = int_result "uring_splice_sync" (
    integer fd_in
    ∷ integer off_in
    ∷ integer fd_out
    ∷ integer off_out
    ∷ masked32 nbytes
    ∷ masked32 flags
    ∷ [])

abbrev pub tee : ℤ → ℤ → ℤ → ℤ → Request
tee fd_in fd_out nbytes flags =
    int_result "uring_tee_sync"
      (integer fd_in ∷ integer fd_out ∷ masked32 nbytes ∷ masked32 flags ∷ [])

abbrev pub pipe : ℤ → Request
pipe pipe_flags = no_result "uring_pipe_sync" (array an_int 2 ∷ integer pipe_flags ∷ [])

abbrev pub msg_ring : ℤ → ℤ → ℤ → ℤ → Request
msg_ring fd len_val payload flags =
    no_result "uring_msg_ring_sync"
      (integer fd ∷ masked32 len_val ∷ masked64 payload ∷ masked32 flags ∷ [])

abbrev pub nop128 : Request
nop128 = no_result "uring_nop128_sync" ([])

abbrev pub uring_cmd : ℤ → ℤ → Request
uring_cmd cmd_op fd = int_result "uring_uring_cmd_sync" (integer cmd_op ∷ integer fd ∷ [])

abbrev pub uring_cmd128 : ℤ → ℤ → Request
uring_cmd128 cmd_op fd = int_result "uring_uring_cmd128_sync" (integer cmd_op ∷ integer fd ∷ [])

abbrev pub fixed_fd_install : ℤ → ℤ → Request
fixed_fd_install fd install_flags =
    int_result "uring_fixed_fd_install_sync" (integer fd ∷ masked32 install_flags ∷ [])

abbrev pub pipe_direct : ℤ → ℤ → Request
pipe_direct pipe_flags file_index =
    no_result "uring_pipe_direct_sync"
      (array an_int 2 ∷ integer pipe_flags ∷ masked32 file_index ∷ [])

abbrev pub msg_ring_fd : ℤ → ℤ → ℤ → ℤ → ℤ → Request
msg_ring_fd fd source_fd target_fd payload flags =
    no_result "uring_msg_ring_fd_sync"
      (integer fd ∷ integer source_fd ∷ integer target_fd ∷ masked64 payload ∷ masked32 flags ∷ [])

abbrev pub msg_ring_fd_alloc : ℤ → ℤ → ℤ → ℤ → Request
msg_ring_fd_alloc fd source_fd payload flags =
    no_result "uring_msg_ring_fd_alloc_sync"
      (integer fd ∷ integer source_fd ∷ masked64 payload ∷ masked32 flags ∷ [])

abbrev pub msg_ring_cqe_flags : ℤ → ℤ → ℤ → ℤ → ℤ → Request
msg_ring_cqe_flags fd len_val payload flags cqe_flags =
    no_result "uring_msg_ring_cqe_flags_sync"
      (integer fd ∷ masked32 len_val ∷ masked64 payload ∷ masked32 flags ∷ masked32 cqe_flags ∷ [])

abbrev pub link_read_write : ℤ → Buffer → ℤ → ℤ → ℤ → Result Request
link_read_write fd_in buf offset_in fd_out offset_out = with_buffer buf.len buf (λ arr.
    int_result "uring_link_read_write_sync" (
      integer fd_in
      ∷ arr
      ∷ size buf.len
      ∷ integer offset_in
      ∷ integer fd_out
      ∷ integer offset_out
      ∷ []))
