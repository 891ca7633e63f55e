-- ===== src/BufferRing/Slab.antt =====
-- The slab of pyuring/buffer_ring.py and its buffers.
use pyuring.Prelude.{
  refl, true, is_neg, ℕ, suc, ◌*◌, ◌≡◌, ◌⊎◌, inl, inr, arith, ◌∷◌, ℤ, pos, negsuc,
}
use pyuring.Errors.{nowhere, raise_for_neg_errno, ok}
use pyuring.Ctx.State.{UringCtx, ensure_open}
use pyuring.BufferRing.{nowhere, raise_for_neg_errno, true, init, provide_buffers}

pub provide_pins :
    (tid len nr obj : ℕ) (ret : ℤ) (c : UringCtx)
    → ensure_open tid c ≡ (ok tt, c)
    → provide_buffers tid ret (record { object = obj; len = len * nr }) len nr c
      ≡ raise_for_neg_errno ret "uring_provide_buffers_sync" nowhere
          (record c { buffer_keepalive = obj ∷ c.buffer_keepalive })
unfolding provide_buffers ensure_open raise_for_neg_errno
provide_pins tid len nr obj (pos n) c h = ground arith
provide_pins tid len nr obj (negsuc n) c h = ground arith

-- With a positive size and count, on a ring that the thread may use, the slab that the constructor
-- makes is pinned by the ring whatever the native call returns: a negative result raises, and the
-- slab stays pinned though there is no `BufferRing`; any other result gives a `BufferRing` that owns
-- it.
init_pins :
    (tid buf_len nr : ℕ) (ret bgid bid : ℤ) (c : UringCtx)
    → ensure_open tid c ≡ (ok tt, c)
    → let q = init tid ret (pos (suc buf_len)) (pos (suc nr)) bgid bid c in
      (q.1 ≡ record c { fresh = suc c.fresh; buffer_keepalive = c.fresh ∷ c.buffer_keepalive })
      × ((is_neg ret ≡ true)
          ⊎ (q.0
              ≡ ok (record {
                buf_len = suc buf_len;
                nr_buffers = suc nr;
                bgid = bgid;
                bid = bid;
                storage = record { object = c.fresh; len = suc buf_len * suc nr };
              })))
unfolding init raise_for_neg_errno
init_pins tid buf_len nr (pos n) bgid bid c h = (ground (arith, pins), inr (ground (arith, pins)))
  where
    usable :
        ensure_open tid (record c { fresh = suc c.fresh })
        ≡ (ok tt, record c { fresh = suc c.fresh })
    usable = unfold ensure_open in ground arith

    pins :
        provide_buffers tid
          (pos n)
          (record { object = c.fresh; len = suc buf_len * suc nr })
          (suc buf_len)
          (suc nr)
          (record c { fresh = suc c.fresh })
        ≡ raise_for_neg_errno
            (pos n)
            "uring_provide_buffers_sync"
            nowhere
            (record c { fresh = suc c.fresh; buffer_keepalive = c.fresh ∷ c.buffer_keepalive })
    pins =
        provide_pins tid (suc buf_len) (suc nr) c.fresh (pos n) (record c { fresh = suc c.fresh })
          usable
init_pins tid buf_len nr (negsuc n) bgid bid c h = (ground (arith, pins), inl refl)
  where
    usable :
        ensure_open tid (record c { fresh = suc c.fresh })
        ≡ (ok tt, record c { fresh = suc c.fresh })
    usable = unfold ensure_open in ground arith

    pins :
        provide_buffers tid
          (negsuc n)
          (record { object = c.fresh; len = suc buf_len * suc nr })
          (suc buf_len)
          (suc nr)
          (record c { fresh = suc c.fresh })
        ≡ raise_for_neg_errno
            (negsuc n)
            "uring_provide_buffers_sync"
            nowhere
            (record c { fresh = suc c.fresh; buffer_keepalive = c.fresh ∷ c.buffer_keepalive })
    pins =
        provide_pins tid (suc buf_len) (suc nr) c.fresh (negsuc n)
          (record c { fresh = suc c.fresh }) usable
