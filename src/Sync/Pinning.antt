-- ===== src/Sync/Pinning.antt =====
-- The buffers that the ring keeps after `register_buffers` and `unregister_buffers`.
use pyuring.Prelude.{◌∙◌, sym, ap, ◌*◌, pos, ℕ, ◌≡◌, refl, List, [], ◌∷◌, ◌⊎◌, inl, inr, arith, map}
use pyuring.Errors.{raise_for_neg_errno, Exception, ok, err}
use pyuring.Ctx.State.{UringCtx, ensure_open}
use pyuring.Sync.Request.{no_result, Library, Buffer, call}
use pyuring.Sync.Registration.{register_buffers, unregister_buffers, buffers_request}
use pyuring.BufferRing.{provide_buffers}
use pyuring.Sync.Calls.{call-Ends}
use pyuring.Sync.Lengths.{buffers_request_lem, Registrable, Every}
use pyuring.BufferRing.Slab.{provide_pins}

-- `register_buffers` raises and the ring keeps the objects that it kept; or it returns, every buffer
-- was writable memory in one piece and no `bytes`, and the ring keeps exactly the objects of the
-- call, in order.
pub register_buffers_lem :
    (lib : Library) (tid : ℕ) (buffers : List (ℕ × Buffer)) (c : UringCtx)
    → (Every Registrable (map (λ b. b.1) buffers)
        × (register_buffers lib tid buffers c
            ≡ (ok tt, record c { buffer_keepalive = map (λ b. b.0) buffers })))
      ⊎ ((e : Exception) × (register_buffers lib tid buffers c ≡ (err e, c)))
unfolding register_buffers
register_buffers_lem lib tid buffers c = elim (buffers_request_lem (map (λ b. b.1) buffers)) [
  | inr a ↦ inr (a.0, unfold call in ground arith)
  | inl q ↦ elim (call-Ends lib tid (buffers_request (map (λ b. b.1) buffers)) c) [
    | inl a ↦ inl (q.0, ground arith)
    | inr a ↦ inr (a.0, ground arith)
  ]
]

unregister_buffers_lem :
    (lib : Library) (tid : ℕ) (c : UringCtx)
    → (unregister_buffers lib tid c ≡ (ok tt, record c { buffer_keepalive = [] }))
      ⊎ ((e : Exception) × (unregister_buffers lib tid c ≡ (err e, c)))
unfolding unregister_buffers
unregister_buffers_lem lib tid c =
    elim (call-Ends lib tid (ok (no_result "uring_unregister_buffers" [])) c) [
      | inl a ↦ inl (ground arith)
      | inr a ↦ inr (a.0, ground arith)
    ]

-- `provide_buffers` pins its slab in the list that `register_buffers` and `unregister_buffers`
-- replace: once either has returned, the ring keeps nothing of the slab, which the kernel still has.
pub registration_drops_slab :
    (lib : Library) (tid : ℕ) (buffers : List (ℕ × Buffer)) (c c' : UringCtx) (slab len nr n : ℕ)
    → ensure_open tid c ≡ (ok tt, c)
    → provide_buffers tid (pos n) (record { object = slab; len = len * nr }) len nr c ≡ (ok tt, c')
    → (c'.buffer_keepalive ≡ slab ∷ c.buffer_keepalive)
      × (((register_buffers lib tid buffers c').1.buffer_keepalive ≡ map (λ b. b.0) buffers)
          ⊎ ((e : Exception) × (register_buffers lib tid buffers c' ≡ (err e, c'))))
      × (((unregister_buffers lib tid c').1.buffer_keepalive ≡ [])
          ⊎ ((e : Exception) × (unregister_buffers lib tid c' ≡ (err e, c'))))
unfolding raise_for_neg_errno
registration_drops_slab lib tid buffers c c' slab len nr n g h = (
  ap (λ q. q.1.buffer_keepalive) (sym h ∙ provide_pins tid len nr slab (pos n) c g),
  elim (register_buffers_lem lib tid buffers c') [ inl a ↦ inl (rw a.1 refl) | inr a ↦ inr a ],
  elim (unregister_buffers_lem lib tid c') [ inl a ↦ inl (rw a refl) | inr a ↦ inr a ],
)
