-- ===== src/Ctx/Async.antt =====
-- The asynchronous methods of `UringCtx`, over the functions of csrc/uring_wrap.c that they call.
-- What liburing answers to one call is an argument; every answer is allowed.
use pyuring.Errno
use pyuring.Prelude.{
  ℕ, suc, ◌-◌, ◌%◌, ◌*◌, String, Bool, true, false, Option, none, some, List, [], ◌∷◌, ℤ, pos,
  negsuc, ltb, ◌==◌, if◌then◌else◌,
}
use pyuring.Errors.{
  Action, Where, nowhere, value_error, type_error, pure, raise, raise_if, gets, modify, ok, ◌>>=◌,
  ◌>>◌, raise_for_neg_errno,
}
use pyuring.Ctx.State.{
  UringCtx, Op, Kind, reads, writes, splices, Memory, object, pointer, ring, u64_mod, mask32,
}

-- `io_uring_get_sqe` gives no entry; `io_uring_submit` gives `-(e + 1)`; or it submits.
pub data Submission : Type 0 where
  no_sqe : Submission
  refused : ℕ → Submission
  accepted : Submission

-- `(long long)user_data`
abbrev pub int64 : ℕ → ℤ
int64 v = if ltb (v * 2) u64_mod then pos v else negsuc (u64_mod - 1 - v)

-- `-EAGAIN`
abbrev minus_eagain : ℤ
minus_eagain = negsuc 10

-- `uring_read_async`, `uring_write_async` and `uring_splice_submit` of csrc/uring_wrap.c: they
-- differ in the entry that they prepare. An entry once prepared stays in the queue, also when
-- `io_uring_submit` fails.
unfoldable pub submit_op : Submission → Op → Action UringCtx ℤ
submit_op no_sqe op c = pure minus_eagain c
submit_op (refused e) op c = pure (negsuc e) (record c { inflight = op ∷ c.inflight })
submit_op accepted op c = pure (int64 op.tag) (record c { inflight = op ∷ c.inflight })

module _ {V : Type 0} where
  unfoldable pub lookup : ℕ → List (ℕ × V) → Option V
  lookup k [] = none
  lookup k ((j, v) ∷ m) = if j == k then some v else lookup k m

  -- `d.pop(k, None)`
  unfoldable pub erase : ℕ → List (ℕ × V) → List (ℕ × V)
  erase k [] = []
  erase k ((j, v) ∷ m) = let rest = erase k m in if j == k then rest else (j, v) ∷ rest

  abbrev pub is_some : Option V → Bool
  is_some none = false
  is_some (some v) = true

-- `_track_async_io_buffer`
unfoldable pub track_async_io_buffer : ℕ → ℕ → Action UringCtx (Unit {0})
unfolding lookup
track_async_io_buffer ud obj = do
  held ← gets (λ c. is_some (lookup ud c.keepalive))
  raise_if held value_error
  modify (λ c. record c { keepalive = (ud, obj) ∷ c.keepalive })

-- `_completion_release_async_io_buffer`
unfoldable pub completion_release_async_io_buffer : ℕ → UringCtx → UringCtx
unfolding erase
completion_release_async_io_buffer ud c = record c { keepalive = erase ud c.keepalive }

abbrev pub at : ℕ → ℕ → Where
at offset len = record {
  detail = none;
  filename = none;
  at_offset = some offset;
  of_length = some len;
}

-- A call of `uring_read_async` or `uring_write_async` and the test of its result. ctypes passes
-- `user_data` as a `c_uint64`, which keeps the low 64 bits.
unfoldable pub call_async : ℕ → Submission → Kind → String → Memory → ℕ → ℕ → ℕ → Action UringCtx ℤ
unfolding ring submit_op raise_for_neg_errno
call_async tid reply kind operation memory len offset ud = do
  ring tid
  ret ←
      submit_op reply
        (record { kind = kind; memory = memory; len = len; offset = offset; tag = ud % u64_mod })
  raise_for_neg_errno ret operation (at offset len)
  pure ret

-- The dynamic type of a `buf` argument: a pair of `BufferPool.get_ptr()`, a `bytes` or `bytearray`
-- object with its length, or anything else.
pub data Buf : Type 0 where
  pair bytes bytearray : ℕ → ℕ → Buf
  unsupported : Buf

-- `read_async_ptr`
unfoldable pub read_async_ptr : ℕ → Submission → ℕ → ℕ → ℕ → ℕ → Action UringCtx ℤ
read_async_ptr tid reply ptr len offset ud =
    call_async tid reply reads "uring_read_async" (pointer ptr) len offset ud

-- `write_async_ptr`
unfoldable pub write_async_ptr : ℕ → Submission → ℕ → ℕ → ℕ → ℕ → Action UringCtx ℤ
write_async_ptr tid reply ptr len offset ud =
    call_async tid reply writes "uring_write_async" (pointer ptr) len offset ud

-- `bytearray(buf)`: a new object.
abbrev new_object : Action UringCtx ℕ
new_object c = (ok c.fresh, record c { fresh = suc c.fresh })

-- The tail that `read_async` and `write_async` share.
unfoldable pub submit_and_track : ℕ → Submission → Kind → String → ℕ → ℕ → ℕ → ℕ → Action UringCtx ℤ
unfolding track_async_io_buffer
submit_and_track tid reply kind operation obj len offset ud = do
  ret ← call_async tid reply kind operation (object obj) len offset ud
  track_async_io_buffer ud obj
  pure ret

-- `read_async`
unfoldable pub read_async : ℕ → Submission → Buf → ℕ → ℕ → Action UringCtx ℤ
unfolding read_async_ptr submit_and_track
read_async tid reply (pair ptr len) offset ud = read_async_ptr tid reply ptr len offset ud
read_async tid reply (bytes _ len) offset ud = do
  obj ← new_object
  submit_and_track tid reply reads "uring_read_async" obj len offset ud
read_async tid reply (bytearray obj len) offset ud =
    submit_and_track tid reply reads "uring_read_async" obj len offset ud
read_async tid reply unsupported offset ud = raise type_error

-- `write_async`
unfoldable pub write_async : ℕ → Submission → Buf → ℕ → ℕ → Action UringCtx ℤ
unfolding submit_and_track
write_async tid reply (bytes obj len) offset ud =
    submit_and_track tid reply writes "uring_write_async" obj len offset ud
write_async tid reply (bytearray obj len) offset ud =
    submit_and_track tid reply writes "uring_write_async" obj len offset ud
write_async tid reply (pair ptr len) offset ud = raise type_error
write_async tid reply unsupported offset ud = raise type_error

-- `splice_submit`. The entry names no memory of Python's; the pointer stands for none.
unfoldable pub splice_submit : ℕ → Submission → ℕ → ℤ → ℕ → Action UringCtx ℤ
unfolding ring submit_op raise_for_neg_errno
splice_submit tid reply off_in nbytes ud = do
  ring tid
  ret ← submit_op reply (record {
    kind = splices;
    memory = pointer 0;
    len = mask32 nbytes;
    offset = off_in;
    tag = ud % u64_mod;
  })
  raise_for_neg_errno ret "uring_splice_submit" nowhere
  pure ret

-- `io_uring_wait_cqe` fails with `-(e + 1)`, or gives a completion.
pub data Wait : Type 0 where
  wait_failed : ℕ → Wait
  cqe : ℕ → ℤ → Wait

-- `io_uring_peek_cqe` gives none, fails with `-(e + 1)`, or gives a completion.
pub data Peek : Type 0 where
  no_cqe : Peek
  peek_failed : ℕ → Peek
  peeked : ℕ → ℤ → Peek

-- The completion of `tag` settles the last prepared entry with it.
unfoldable pub settle : ℕ → List Op → List Op
settle tag [] = []
settle tag (op ∷ ops) = let rest = settle tag ops in if op.tag == tag then ops else op ∷ rest

abbrev reap : ℕ → ℤ → Action UringCtx (ℕ × ℤ)
unfolding settle completion_release_async_io_buffer
reap tag res = do
  modify (λ c. record c { inflight = settle tag c.inflight })
  modify (completion_release_async_io_buffer tag)
  pure (tag, res)

-- `wait_completion`, over `uring_wait_completion`
unfoldable pub wait_completion : ℕ → Wait → Action UringCtx (ℕ × ℤ)
unfolding ring raise_for_neg_errno settle completion_release_async_io_buffer
wait_completion tid (wait_failed e) = do
  ring tid
  raise_for_neg_errno (negsuc e) "uring_wait_completion" nowhere
  pure (0, pos 0)
wait_completion tid (cqe tag res) = do
  ring tid
  raise_for_neg_errno (pos 0) "uring_wait_completion" nowhere
  reap tag res

-- `uring_peek_completion`: `-EAGAIN` is no completion.
abbrev peek_ret : Peek → ℤ
peek_ret no_cqe = pos 0
peek_ret (peek_failed e) = if suc e == Errno.eagain then pos 0 else negsuc e
peek_ret (peeked tag res) = pos 1

abbrev peek_reap : Peek → Action UringCtx (Option (ℕ × ℤ))
unfolding settle completion_release_async_io_buffer
peek_reap no_cqe = pure none
peek_reap (peek_failed e) = pure none
peek_reap (peeked tag res) = do got ← reap tag res; pure (some got)

abbrev is_zero : ℤ → Bool
is_zero (pos n) = n == 0
is_zero (negsuc n) = false

abbrev peek_tested : Peek → Action UringCtx (Option (ℕ × ℤ))
unfolding raise_for_neg_errno
peek_tested reply =
    if is_zero (peek_ret reply)
    then pure none
    else (raise_for_neg_errno (peek_ret reply) "uring_peek_completion" nowhere >> peek_reap reply)

-- `peek_completion`
unfoldable pub peek_completion : ℕ → Peek → Action UringCtx (Option (ℕ × ℤ))
unfolding ring raise_for_neg_errno settle completion_release_async_io_buffer
peek_completion tid reply = do ring tid; peek_tested reply

-- `submit` and `submit_and_wait`, with the result of the native call.
unfoldable pub submit : ℕ → ℤ → Action UringCtx ℤ
unfolding ring raise_for_neg_errno
submit tid ret = do ring tid; raise_for_neg_errno ret "uring_submit" nowhere; pure ret

unfoldable pub submit_and_wait : ℕ → ℤ → Action UringCtx ℤ
unfolding ring raise_for_neg_errno
submit_and_wait tid ret = do
  ring tid
  raise_for_neg_errno ret "uring_submit_and_wait" nowhere
  pure ret
