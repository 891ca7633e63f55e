-- ===== src/Sync/Vectors.antt =====
-- Scatter and gather: the methods of `UringCtx` in pyuring/native/uring_ctx.py that take a list of
-- buffers.
use pyuring.Prelude.{ℕ, List, [], ◌∷◌, ℤ, if◌then◌else◌, length}
use pyuring.Errors.{Result, ok, err, value_error, type_error}
use pyuring.Abi.Convert.{Arg, integer, iovecs}
use pyuring.Sync.Request.{
  request_of, Buffer, Request, int_result, masked32, masked64, size, from_buffer,
}

-- One turn of the loop over writable parts: the `iov_len`.
abbrev pub writable_part : Buffer → Result ℕ
writable_part p =
    if p.readonly
    then err type_error
    else elim (from_buffer p.nbytes p) [ err e ↦ err e | ok arr ↦ ok p.nbytes ]

-- One turn of the loop over parts to send. A `bytes` is copied.
abbrev pub readable_part : Buffer → Result ℕ
readable_part p =
    if p.is_bytes
    then ok p.len
    else if p.contiguous
    then elim (from_buffer p.len p) [ err e ↦ err e | ok arr ↦ ok p.len ]
    else err value_error

abbrev cons_length : Result ℕ → Result (List ℕ) → Result (List ℕ)
cons_length (err e) rest = err e
cons_length (ok n) (err e) = err e
cons_length (ok n) (ok ns) = ok (n ∷ ns)

-- The loop that fills `iov`; the first part that is refused ends it.
unfoldable pub each_part : (Buffer → Result ℕ) → List Buffer → Result (List ℕ)
each_part f [] = ok []
each_part f (p ∷ ps) = cons_length (f p) (each_part f ps)

unfoldable pub with_parts :
    (Buffer → Result ℕ) → List Buffer → (Arg → Arg → Request) → Result Request
with_parts f [] k = err value_error
with_parts f (p ∷ ps) k =
    request_of (each_part f (p ∷ ps)) (λ ns. k (iovecs ns) (size (length (p ∷ ps))))

abbrev pub readv : ℤ → List Buffer → ℤ → Result Request
readv fd parts offset =
    with_parts writable_part parts
      (λ iov n. int_result "uring_readv_sync" (integer fd ∷ iov ∷ n ∷ integer offset ∷ []))

abbrev pub writev : ℤ → List Buffer → ℤ → Result Request
writev fd parts offset =
    with_parts readable_part parts
      (λ iov n. int_result "uring_writev_sync" (integer fd ∷ iov ∷ n ∷ integer offset ∷ []))

abbrev pub sendmsg_iov : ℤ → List Buffer → ℤ → Result Request
sendmsg_iov fd parts flags =
    with_parts readable_part parts
      (λ iov n. int_result "uring_sendmsg_iov_sync" (integer fd ∷ iov ∷ n ∷ masked32 flags ∷ []))

abbrev pub recvmsg_iov : ℤ → List Buffer → ℤ → Result Request
recvmsg_iov fd parts flags =
    with_parts writable_part parts
      (λ iov n. int_result "uring_recvmsg_iov_sync" (integer fd ∷ iov ∷ n ∷ masked32 flags ∷ []))

abbrev pub sendmsg_zc_iov : ℤ → List Buffer → ℤ → Result Request
sendmsg_zc_iov fd parts flags =
    with_parts readable_part parts
      (λ iov n. int_result "uring_sendmsg_zc_iov_sync" (integer fd ∷ iov ∷ n ∷ masked32 flags ∷ []))

abbrev pub sendmsg_zc_fixed_iov : ℤ → List Buffer → ℤ → ℤ → Result Request
sendmsg_zc_fixed_iov fd parts flags buf_index = with_parts readable_part parts (λ iov n.
    int_result "uring_sendmsg_zc_fixed_iov_sync"
      (integer fd ∷ iov ∷ n ∷ masked32 flags ∷ masked32 buf_index ∷ []))

abbrev pub recvmsg_multishot_iov : ℤ → List Buffer → ℤ → Result Request
recvmsg_multishot_iov fd parts flags = with_parts writable_part parts (λ iov n.
    int_result "uring_recvmsg_multishot_iov_sync" (integer fd ∷ iov ∷ n ∷ masked32 flags ∷ []))

abbrev pub readv_fixed : ℤ → List Buffer → ℤ → ℤ → ℤ → Result Request
readv_fixed fd parts offset rw_flags buf_index = with_parts writable_part parts (λ iov n.
    int_result "uring_readv_fixed_sync"
      (integer fd ∷ iov ∷ n ∷ masked64 offset ∷ integer rw_flags ∷ integer buf_index ∷ []))

abbrev pub writev_fixed : ℤ → List Buffer → ℤ → ℤ → ℤ → Result Request
writev_fixed fd parts offset rw_flags buf_index = with_parts readable_part parts (λ iov n.
    int_result "uring_writev_fixed_sync"
      (integer fd ∷ iov ∷ n ∷ masked64 offset ∷ integer rw_flags ∷ integer buf_index ∷ []))
