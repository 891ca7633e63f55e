-- ===== src/Sync/Registration.antt =====
-- The methods of `UringCtx` in pyuring/native/uring_ctx.py that register files and buffers, or probe.
use pyuring.Prelude.{ℕ, zero, suc, List, [], ◌∷◌, ℤ, pos, negsuc, if◌then◌else◌, length, map}
use pyuring.Errors.{
  Result, Action, ok, err, value_error, type_error, raise, pure, modify, ◌>>=◌, ◌>>◌,
}
use pyuring.Ctx.State.{UringCtx}
use pyuring.Abi.Types.{an_int}
use pyuring.Abi.Convert.{integer, memory, array, iovecs}
use pyuring.Sync.Request.{
  request_of, Buffer, Request, Library, no_result, int_result, size, from_buffer, call, perform,
}
use pyuring.Sync.Vectors.{each_part}

abbrev pub register_files : List ℤ → Result Request
register_files [] = err value_error
register_files (fd ∷ fds) = ok (
    no_result "uring_register_files"
      (array an_int (length (fd ∷ fds)) ∷ size (length (fd ∷ fds)) ∷ []))

abbrev pub unregister_files : Request
unregister_files = no_result "uring_unregister_files" []

abbrev pub files_update : List ℤ → ℤ → Result Request
files_update [] offset = err value_error
files_update (fd ∷ fds) offset = ok (
    no_result "uring_files_update_sync"
      (array an_int (length (fd ∷ fds)) ∷ size (length (fd ∷ fds)) ∷ integer offset ∷ []))

-- One turn of the loop of `register_buffers`: the `iov_len`.
abbrev pub register_part : Buffer → Result ℕ
register_part b =
    if b.is_bytes
    then err type_error
    else if b.readonly
    then err type_error
    else if b.contiguous
    then elim (from_buffer b.nbytes b) [ err e ↦ err e | ok arr ↦ ok b.nbytes ]
    else err value_error

abbrev pub buffers_request : List Buffer → Result Request
buffers_request [] = err value_error
buffers_request (b ∷ bs) =
    request_of (each_part register_part (b ∷ bs))
      (λ ns. no_result "uring_register_buffers" (iovecs ns ∷ size (length (b ∷ bs)) ∷ []))

-- `register_buffers`, of objects with their identities: after the call the ring keeps these objects,
-- in place of those that it kept.
unfoldable pub register_buffers : Library → ℕ → List (ℕ × Buffer) → Action UringCtx (Unit {0})
register_buffers lib tid buffers = do
  call lib tid (buffers_request (map (λ b. b.1) buffers))
  modify (λ c. record c { buffer_keepalive = map (λ b. b.0) buffers })

-- `unregister_buffers`
unfoldable pub unregister_buffers : Library → ℕ → Action UringCtx (Unit {0})
unregister_buffers lib tid = do
  call lib tid (ok (no_result "uring_unregister_buffers" []))
  modify (λ c. record c { buffer_keepalive = [] })

-- A new block of `n` zero bytes after C wrote to its front.
abbrev pub fill : ℕ → List ℤ → List ℤ
fill zero words = []
fill (suc n) [] = pos 0 ∷ fill n []
fill (suc n) (w ∷ words) = w ∷ fill n words

abbrev pub last_op_request : Request
last_op_request = int_result "uring_probe_last_op" []

abbrev pub mask_request : ℕ → Request
mask_request n = int_result "uring_probe_supported_mask" (memory n ∷ size n ∷ [])

abbrev pub mask_of : Library → ℕ → ℤ → Action UringCtx (List ℤ)
mask_of lib tid (negsuc n) = raise value_error
mask_of lib tid (pos lo) = do
  reply ← perform lib tid (mask_request (suc lo))
  pure (fill (suc lo) reply.words)

-- `probe_supported_mask`. A result of `probe_last_op` is not negative here.
unfoldable pub probe_supported_mask : Library → ℕ → Action UringCtx (List ℤ)
probe_supported_mask lib tid = do reply ← perform lib tid last_op_request; mask_of lib tid reply.ret
