-- ===== src/BufferRing/Tests.antt =====
-- The slab of a buffer ring at concrete arguments.
use pyuring.Prelude.{◌≡◌, refl, none}
use pyuring.Errors.{ok}
use pyuring.Ctx.State.{UringCtx, new_ctx, ensure_open}

abbrev ring : UringCtx
ring = new_ctx 7 none

ring-open : ensure_open 3 ring ≡ (ok tt, ring)
unfolding ensure_open
ring-open = refl
