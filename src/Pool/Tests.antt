-- ===== src/Pool/Tests.antt =====
-- The pool of rings at concrete arguments.
use pyuring.Prelude.{◌+◌, ℕ, zero, suc, ◌<◌, ◌≡◌, refl, [], ◌∷◌, some, pos, get_elem?, arith}
use pyuring.Errors.{Exception, ok, err}
use pyuring.Ctx.State.{UringCtx, CreateCall, CreateReply, created, null, default_args, new_ctx}
use pyuring.Ctx.State
use pyuring.Pool.Rings.{make_rings, UringPool, init, close, len}

abbrev two_rings : UringPool
two_rings = record { rings = new_ctx 101 (some 3) ∷ new_ctx 100 (some 3) ∷ [] }

-- A handle for each ring.
abbrev all_created : ℕ → CreateCall → CreateReply
all_created k call = created (100 + k)

-- The last ring is refused.
abbrev last_refused : ℕ → CreateCall → CreateReply
last_refused zero call = null 12
last_refused (suc k) call = created 7

init_two : (init all_created 3 default_args (pos 2)).0 ≡ ok two_rings
unfolding init make_rings State.init
init_two = refl

abbrev no_memory : Exception
no_memory = State.create_failed 12

last_ring_fails : State.init (last_refused 0) 3 default_args ≡ err no_memory
unfolding State.init
last_ring_fails = refl

first_ring_made : State.init (last_refused 1) 3 default_args ≡ ok (new_ctx 7 (some 3))
unfolding State.init
first_ring_made = refl

two_rings-positive : 0 < len two_rings
unfolding len
two_rings-positive = omega arith

second_closed : get_elem? (close two_rings).1 1 ≡ some (State.close (new_ctx 100 (some 3)))
unfolding close
second_closed = refl
