-- ===== src/BufferRing.antt =====
-- pyuring/buffer_ring.py, over `provide_buffers` and `remove_buffers` of
-- pyuring/native/uring_ctx.py. The buffer is a `bytearray`; what the native calls return is an
-- argument.
use pyuring.Prelude.{
  ℕ, zero, suc, ◌*◌, ltb, leb, String, Bool, true, false, Option, none, some, List, [], ◌∷◌, ℤ, pos,
  negsuc,
}
use pyuring.Errors.{
  Result, Action, ok, err, value_error, nowhere, raise_for_neg_errno, pure, raise, raise_if, modify,
  ◌>>=◌, ◌>>◌,
}
use pyuring.Ctx.State.{UringCtx, ring}
pub mod Slab
pub mod Tests

-- A `bytearray`: its identity and its length.
pub record Storage : Type 0 where
  pub object : ℕ
  pub len : ℕ

-- `provide_buffers`: the buffer is pinned before the native call, and the handle tested with it.
unfoldable pub provide_buffers : ℕ → ℤ → Storage → ℕ → ℕ → Action UringCtx (Unit {0})
unfolding ring raise_for_neg_errno
provide_buffers tid ret buf buf_len_each nr = do
  raise_if (ltb buf.len (buf_len_each * nr)) value_error
  modify (λ c. record c { buffer_keepalive = buf.object ∷ c.buffer_keepalive })
  ring tid
  raise_for_neg_errno ret "uring_provide_buffers_sync" nowhere

-- `remove_buffers`
unfoldable pub remove_buffers : ℕ → ℤ → Action UringCtx (Unit {0})
unfolding ring raise_for_neg_errno
remove_buffers tid ret = do ring tid; raise_for_neg_errno ret "uring_remove_buffers_sync" nowhere

pub record BufferRing : Type 0 where
  pub buf_len : ℕ
  pub nr_buffers : ℕ
  pub bgid : ℤ
  pub bid : ℤ
  pub storage : Storage

-- The constructor behind its test, with a new `bytearray` from the ring's count of objects.
abbrev pub provided : ℕ → ℤ → ℕ → ℕ → ℤ → ℤ → Action UringCtx BufferRing
provided tid ret buf_len nr bgid bid c =
    let s : Storage = record { object = c.fresh; len = buf_len * nr } in
    (do
      provide_buffers tid ret s buf_len nr
      pure (record { buf_len = buf_len; nr_buffers = nr; bgid = bgid; bid = bid; storage = s }))
      (record c { fresh = suc c.fresh })

-- `BufferRing.__init__`
unfoldable pub init : ℕ → ℤ → ℤ → ℤ → ℤ → ℤ → Action UringCtx BufferRing
init tid ret (pos (suc buf_len)) (pos (suc nr)) bgid bid =
    provided tid ret (suc buf_len) (suc nr) bgid bid
init tid ret buf_len nr bgid bid = raise value_error

-- `remove`
unfoldable pub remove : ℕ → ℤ → BufferRing → Action UringCtx (Unit {0})
remove tid ret b = remove_buffers tid ret

-- `close`, which drops what `remove` raises.
unfoldable pub close : ℕ → ℤ → BufferRing → Action UringCtx (Unit {0})
close tid ret b c = (ok tt, (remove tid ret b c).1)
