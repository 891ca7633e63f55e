-- ===== src/Sync/Sockets.antt =====
-- Sockets: methods of `UringCtx` in pyuring/native/uring_ctx.py.
use pyuring.Prelude.{zero, suc, Option, none, some, List, [], ◌∷◌, ℤ, pos, negsuc}
use pyuring.Errors.{Result}
use pyuring.Abi.Types.{a_uint}
use pyuring.Abi.Convert.{Arg, null, integer, memory, array}
use pyuring.Sync.Request.{
  Buffer, Request, no_result, int_result, masked32, masked64, size, with_buffer, address_size,
}

abbrev pub send : ℤ → Buffer → ℤ → Request
send fd payload flags =
    int_result "uring_send_sync"
      (integer fd ∷ memory payload.len ∷ size payload.len ∷ masked32 flags ∷ [])

abbrev pub recv : ℤ → Buffer → ℤ → Result Request
recv fd buf flags =
    with_buffer buf.len buf
      (λ arr. int_result "uring_recv_sync" (integer fd ∷ arr ∷ size buf.len ∷ masked32 flags ∷ []))

abbrev pub accept : ℤ → ℤ → Request
accept fd flags =
    int_result "uring_accept_sync" (integer fd ∷ memory 128 ∷ array a_uint 1 ∷ integer flags ∷ [])

abbrev pub connect : ℤ → Buffer → ℤ → Request
connect fd addr addr_len =
    no_result "uring_connect_sync"
      (integer fd ∷ memory (address_size addr addr_len) ∷ integer addr_len ∷ [])

abbrev pub shutdown : ℤ → ℤ → Request
shutdown fd how = no_result "uring_shutdown_sync" (integer fd ∷ integer how ∷ [])

abbrev pub multishot_accept_submit : ℤ → ℤ → ℤ → Request
multishot_accept_submit fd flags user_data =
    int_result "uring_multishot_accept_submit"
      (integer fd ∷ integer flags ∷ masked64 user_data ∷ [])

abbrev pub recv_multishot_buffer_group_submit : ℤ → ℤ → ℤ → ℤ → Request
recv_multishot_buffer_group_submit fd bgid msg_flags user_data =
    int_result "uring_recv_multishot_buf_group_submit"
      (integer fd ∷ masked32 bgid ∷ integer msg_flags ∷ masked64 user_data ∷ [])

abbrev pub socket : ℤ → ℤ → ℤ → ℤ → Request
socket domain kind protocol flags =
    int_result "uring_socket_sync"
      (integer domain ∷ integer kind ∷ integer protocol ∷ masked32 flags ∷ [])

abbrev pub bind : ℤ → Buffer → ℤ → Request
bind fd addr addr_len =
    no_result "uring_bind_sync"
      (integer fd ∷ memory (address_size addr addr_len) ∷ integer addr_len ∷ [])

abbrev pub listen : ℤ → ℤ → Request
listen fd backlog = no_result "uring_listen_sync" (integer fd ∷ integer backlog ∷ [])

abbrev pub recv_multishot : ℤ → Buffer → ℤ → Result Request
recv_multishot fd buf msg_flags = with_buffer buf.len buf (λ arr.
    int_result "uring_recv_multishot_sync"
      (integer fd ∷ arr ∷ size buf.len ∷ integer msg_flags ∷ []))

abbrev pub send_zc : ℤ → Buffer → ℤ → ℤ → Request
send_zc fd payload msg_flags zc_flags = int_result "uring_send_zc_sync" (
    integer fd ∷ memory payload.len ∷ size payload.len ∷ integer msg_flags ∷ masked32 zc_flags ∷ [])

abbrev pub send_zc_fixed : ℤ → Buffer → ℤ → ℤ → ℤ → Result Request
send_zc_fixed fd payload msg_flags zc_flags buf_index = with_buffer payload.nbytes payload (λ arr.
    int_result "uring_send_zc_fixed_sync" (
      integer fd
      ∷ arr
      ∷ size payload.nbytes
      ∷ integer msg_flags
      ∷ masked32 zc_flags
      ∷ masked32 buf_index
      ∷ []))

abbrev pub recv_zc : ℤ → Buffer → ℤ → ℤ → Result Request
recv_zc fd buf msg_flags ioprio_zc = with_buffer buf.len buf (λ arr.
    int_result "uring_recv_zc_sync"
      (integer fd ∷ arr ∷ size buf.len ∷ masked32 msg_flags ∷ masked32 ioprio_zc ∷ []))

-- The last two arguments of `cmd_sock`: the whole of `optval`, and `optlen` as it comes.
abbrev pub option_value : Option Buffer → ℤ → List Arg
option_value none optlen = null ∷ size 0 ∷ []
option_value (some optval) (negsuc n) = null ∷ size 0 ∷ []
option_value (some optval) (pos zero) = null ∷ size 0 ∷ []
option_value (some optval) (pos (suc n)) = memory optval.len ∷ size (suc n) ∷ []

abbrev pub cmd_sock : ℤ → ℤ → ℤ → ℤ → Option Buffer → ℤ → Request
cmd_sock cmd_op fd level optname optval optlen =
    int_result "uring_cmd_sock_sync"
      (integer cmd_op ∷ integer fd ∷ integer level ∷ integer optname ∷ option_value optval optlen)

abbrev pub cmd_getsockname : ℤ → Buffer → ℤ → Result Request
cmd_getsockname fd addr peer = with_buffer addr.len addr (λ arr.
    int_result "uring_cmd_getsockname_sync" (integer fd ∷ arr ∷ array a_uint 1 ∷ integer peer ∷ []))

abbrev pub socket_direct : ℤ → ℤ → ℤ → ℤ → ℤ → Request
socket_direct domain kind protocol file_index flags =
    int_result "uring_socket_direct_sync"
      (integer domain ∷ integer kind ∷ integer protocol ∷ masked32 file_index ∷ masked32 flags ∷ [])

abbrev pub socket_direct_alloc : ℤ → ℤ → ℤ → ℤ → Request
socket_direct_alloc domain kind protocol flags =
    int_result "uring_socket_direct_alloc_sync"
      (integer domain ∷ integer kind ∷ integer protocol ∷ masked32 flags ∷ [])

abbrev pub send_bundle : ℤ → ℤ → ℤ → Request
send_bundle fd length msg_flags =
    int_result "uring_send_bundle_sync" (integer fd ∷ integer length ∷ integer msg_flags ∷ [])

abbrev pub sendto : ℤ → Buffer → ℤ → Buffer → ℤ → Request
sendto fd payload msg_flags addr addr_len = int_result "uring_sendto_sync" (
    integer fd
    ∷ memory payload.len
    ∷ size payload.len
    ∷ integer msg_flags
    ∷ memory (address_size addr addr_len)
    ∷ integer addr_len
    ∷ [])
