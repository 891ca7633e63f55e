-- ===== src/Ctx/Single.antt =====
-- One submission and its completion on a ring with nothing pinned.
use pyuring.Ctx.Careful.{entry, submit_and_track_accepted, tag_fits}
use pyuring.Ctx.Async.{
  lookup, bytes, bytearray, accepted, cqe, write_async, wait_completion, read_async,
}
use pyuring.Ctx.State.{object, reads, writes, u64_mod, ensure_open, Op, UringCtx}
use pyuring.Prelude.{refl, none, pos, arith, ◌<◌, [], ◌*◌, ◌≡◌, ◌∷◌, ℤ, ℕ}
use pyuring.Errors.{ok}

abbrev pub submitted : UringCtx → Op → ℕ → ℕ → UringCtx
submitted c op ud obj = record c { inflight = op ∷ c.inflight; keepalive = (ud, obj) ∷ c.keepalive }

reap_own :
    (tid : ℕ) (op : Op) (obj ud : ℕ) (res : ℤ) (c : UringCtx)
    → ensure_open tid c ≡ (ok tt, c)
    → op.tag ≡ ud
    → c.keepalive ≡ []
    → wait_completion tid (cqe ud res) (submitted c op ud obj) ≡ (ok (ud, res), c)
unfolding wait_completion ensure_open
reap_own tid op obj ud res c e t k = ground arith

-- On a ring that its thread may use and that pins nothing, with a tag below 2^63: a read into a
-- `bytearray` that liburing accepts, and that is then reaped under its own tag, leaves the ring as it
-- found it.
pub round_trip :
    (tid obj len offset ud : ℕ) (res : ℤ) (c : UringCtx)
    → ensure_open tid c ≡ (ok tt, c)
    → ud * 2 < u64_mod
    → c.keepalive ≡ []
    → let c' = submitted c (entry reads (object obj) len offset ud) ud obj in
      (read_async tid accepted (bytearray obj len) offset ud c ≡ (ok (pos ud), c'))
      × (wait_completion tid (cqe ud res) c' ≡ (ok (ud, res), c))
unfolding read_async
round_trip tid obj len offset ud res c e h k = (
  submit_and_track_accepted tid reads "uring_read_async" obj len offset ud c e h free,
  reap_own tid (entry reads (object obj) len offset ud) obj ud res c e (tag_fits ud h) k,
)
  where
    free : lookup ud c.keepalive ≡ none
    free = rw k (unfold lookup in refl)

pub write_round_trip :
    (tid obj len offset ud : ℕ) (res : ℤ) (c : UringCtx)
    → ensure_open tid c ≡ (ok tt, c)
    → ud * 2 < u64_mod
    → c.keepalive ≡ []
    → let c' = submitted c (entry writes (object obj) len offset ud) ud obj in
      (write_async tid accepted (bytes obj len) offset ud c ≡ (ok (pos ud), c'))
      × (wait_completion tid (cqe ud res) c' ≡ (ok (ud, res), c))
unfolding write_async
write_round_trip tid obj len offset ud res c e h k = (
  submit_and_track_accepted tid writes "uring_write_async" obj len offset ud c e h free,
  reap_own tid (entry writes (object obj) len offset ud) obj ud res c e (tag_fits ud h) k,
)
  where
    free : lookup ud c.keepalive ≡ none
    free = rw k (unfold lookup in refl)
