-- ===== src/Sync/Tests.antt =====
-- The synchronous methods at concrete arguments.
use pyuring.Sync.Files
use pyuring.Sync.Waits
use pyuring.Prelude.{
  ◌⊎◌, ◌*◌, ◌≡◌, refl, pos, negsuc, arith, true, false, some, [], ◌∷◌, suc, ◌<◌, ◌≤◌,
}
use pyuring.Ctx.State.{new_ctx, UringCtx}
use pyuring.Ctx.State.{ensure_open}
use pyuring.Sync.Request.{Request, Buffer, Library, call}
use pyuring.Sync.Lengths.{Registrable, Every}
use pyuring.Sync.Calls.{futex_always_raises}
use pyuring.Sync.Registration.{unregister_buffers, register_buffers}
use pyuring.BufferRing.{provide_buffers}
use pyuring.Errors.{Exception, type_error, ok, err}
use pyuring.Sync.Pinning.{registration_drops_slab, register_buffers_lem}

abbrev opened : UringCtx
opened = new_ctx 7 (some 3)

opened-open : ensure_open 3 opened ≡ (ok tt, opened)
unfolding ensure_open
opened-open = refl

-- Every function returns `EBADF`.
abbrev refusing : Library
refusing name args = record { ret = negsuc 8; words = [] }

abbrev quiet : Library
quiet name args = record { ret = pos 0; words = [] }

abbrev sync_five : Request
sync_five = Files.fsync_fd (pos 5) true

-- Two bytes.
abbrev two_bytes : Buffer
two_bytes = record { len = 2; nbytes = 2; readonly = false; contiguous = true; is_bytes = false }

abbrev word : Buffer
word = record { len = 4; nbytes = 4; readonly = false; contiguous = true; is_bytes = false }

word-long : 4 ≤ word.nbytes
word-long = omega arith

futex_always_raises_example :
    (call quiet 3 (Waits.futex_wake word (pos 1) (pos 2) (pos 0) (pos 0)) opened
      ≡ (err type_error, opened))
    × (call quiet 3 (Waits.futex_wait word (pos 1) (pos 2) (pos 0) (pos 0)) opened
        ≡ (err type_error, opened))
futex_always_raises_example =
    futex_always_raises quiet 3 word (pos 1) (pos 2) (pos 0) (pos 0) opened opened-open refl refl
      word-long

two_below_four : two_bytes.len < suc 3
two_below_four = omega arith

register_buffers_lem_example :
    (Every Registrable (word ∷ two_bytes ∷ [])
      × (register_buffers quiet 3 ((5, word) ∷ (6, two_bytes) ∷ []) opened
          ≡ (ok tt, record opened { buffer_keepalive = 5 ∷ 6 ∷ [] })))
    ⊎ ((e : Exception) × (register_buffers quiet 3 ((5, word) ∷ (6, two_bytes) ∷ []) opened
          ≡ (err e, opened)))
register_buffers_lem_example = register_buffers_lem quiet 3 ((5, word) ∷ (6, two_bytes) ∷ []) opened

abbrev with_slab : UringCtx
with_slab = record opened { buffer_keepalive = 9 ∷ [] }

slab_provided :
    provide_buffers 3 (pos 0) (record { object = 9; len = 4 * 2 }) 4 2 opened ≡ (ok tt, with_slab)
unfolding provide_buffers ensure_open
slab_provided = refl

registration_drops_slab_example :
    (with_slab.buffer_keepalive ≡ 9 ∷ opened.buffer_keepalive)
    × (((register_buffers quiet 3 ((5, word) ∷ []) with_slab).1.buffer_keepalive ≡ 5 ∷ [])
        ⊎ ((e : Exception) × (register_buffers quiet 3 ((5, word) ∷ []) with_slab
              ≡ (err e, with_slab))))
    × (((unregister_buffers quiet 3 with_slab).1.buffer_keepalive ≡ [])
        ⊎ ((e : Exception) × (unregister_buffers quiet 3 with_slab ≡ (err e, with_slab))))
registration_drops_slab_example =
    registration_drops_slab quiet 3 ((5, word) ∷ []) opened with_slab 9 4 2 0 opened-open
      slab_provided
