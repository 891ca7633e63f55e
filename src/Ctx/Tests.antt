-- ===== src/Ctx/Tests.antt =====
-- The ring of pyuring/native/uring_ctx.py at concrete arguments.
use pyuring.Prelude.{ℤ, ◌^◌, ℕ, refl, ◌≡◌, some, none, [], ◌∷◌, List, pos, arith}
use pyuring.Errors.{ok}
use pyuring.Ctx.State.{closed_error, UringCtx, new_ctx, close, ensure_open}
use pyuring.Ctx.Async.{Peek, Wait, Submission, accepted, bytearray, cqe, lookup}
use pyuring.Ctx.Pins.{IsPinned}
use pyuring.Ctx.History.{Call, read, wait, run, run-IsPinned}
use pyuring.Ctx.Closed.{Refuses, close_lem}

-- A ring of the thread 3.
abbrev ring_of_3 : UringCtx
ring_of_3 = new_ctx 7 (some 3)

abbrev closed_ring : UringCtx
closed_ring = record ring_of_3 { handle = none }

abbrev history : List (ℕ × Call)
history = (3, read accepted (bytearray 5 16) 0 9) ∷ (3, wait (cqe 9 (pos 16))) ∷ []

ring_of_3-open : ensure_open 3 ring_of_3 ≡ (ok tt, ring_of_3)
unfolding ensure_open
ring_of_3-open = refl

ring_of_3-IsPinned : IsPinned ring_of_3
unfolding lookup
ring_of_3-IsPinned = record { safe = tt; no_leak = λ t h. refl }

run-IsPinned_example : IsPinned (run history ring_of_3)
run-IsPinned_example =
    run-IsPinned history ring_of_3 ((tt, omega arith, tt), (tt, tt)) ring_of_3-IsPinned

close_lem_example :
    ((close ring_of_3).destroyed ≡ 7 ∷ [])
    × ((close ring_of_3).keepalive ≡ [])
    × ((close ring_of_3).buffer_keepalive ≡ [])
    × (close (close ring_of_3) ≡ close ring_of_3)
    × ((tid : ℕ) (reply : Submission) (obj len offset ud : ℕ) (n : ℤ) (w : Wait) (p : Peek)
        → Refuses closed_error (close ring_of_3) tid reply obj len offset ud n w p)
close_lem_example = close_lem ring_of_3 7 refl

abbrev pinning : UringCtx
pinning = record ring_of_3 { keepalive = (9, 5) ∷ [] }

pinning-open : ensure_open 3 pinning ≡ (ok tt, pinning)
unfolding ensure_open
pinning-open = refl

pinned_nine : lookup 9 pinning.keepalive ≡ some 5
unfolding lookup
pinned_nine = refl

abbrev big_tag : ℕ
big_tag = 2 ^ 63
