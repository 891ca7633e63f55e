-- ===== src/Queue/Tests.antt =====
-- The completions of a ring at concrete arguments.
use pyuring.Prelude.{
  suc, ◌+◌, ◌++◌, List, length, ℕ, ◌≡◌, refl, pos, negsuc, arith, some, [], ◌∷◌, ◌<◌,
}
use pyuring.Ctx.Async.{cqe, wait_completion, lookup}
use pyuring.Queue.{summed, failed, Completions, batch, Cqe, submit_wait_one}
use pyuring.Ctx.State.{new_ctx, UringCtx}
use pyuring.Ctx.State.{ensure_open}
use pyuring.Queue.Stale.{batch_results, successes, sync_takes_async, batch_failed_leaves}
use pyuring.Errors.{ok}

abbrev own : Cqe
own = record { tag = 199; res = pos 0 }

-- Three blocks of 4 bytes, of which the second is refused with `EIO`.
abbrev blocks : Completions
blocks =
    record { tag = 1; res = pos 4 }
    ∷ record { tag = 2; res = negsuc 4 }
    ∷ record { tag = 3; res = pos 4 }
    ∷ []

abbrev two_blocks : List (ℕ × ℕ)
two_blocks = (1, 4) ∷ (2, 3) ∷ []

abbrev first_block : List (ℕ × ℕ)
first_block = (1, 4) ∷ []

one_below_three : length first_block < 3
one_below_three = omega arith

batch_results_example :
    (batch (pos 3) (1 ∷ []) 3 2 (successes two_blocks ++ blocks) ≡ (summed 7, blocks))
    × ((k t e : ℕ)
        → batch
            (pos 3)
            (1 ∷ [])
            3
            (2 + suc k)
            (successes two_blocks ++ (record { tag = t; res = negsuc e } ∷ blocks))
          ≡ (failed e, blocks))
batch_results_example = batch_results 3 (1 ∷ []) 3 two_blocks blocks (omega arith)

batch_failed_leaves_example :
    ((batch (pos 3) (2 ∷ []) 3 3 blocks).0 ≡ failed 4)
    × (submit_wait_one (pos 1) (own ∷ []) 3 (batch (pos 3) (2 ∷ []) 3 3 blocks).1
        ≡ (pos 4, own ∷ []))
batch_failed_leaves_example =
    batch_failed_leaves 3 1 (2 ∷ []) 3 3 3 first_block 2 4 (record { tag = 3; res = pos 4 }) []
      (own ∷ []) one_below_three (omega arith)

abbrev pinning : UringCtx
pinning = record (new_ctx 7 (some 3)) { keepalive = (9, 5) ∷ [] }

pinning-open : ensure_open 3 pinning ≡ (ok tt, pinning)
unfolding ensure_open
pinning-open = refl

pinned_nine : lookup 9 pinning.keepalive ≡ some 5
unfolding lookup
pinned_nine = refl

sync_takes_async_example :
    (submit_wait_one (pos 1) (own ∷ []) 3 (record { tag = 9; res = pos 16 } ∷ [])
      ≡ (pos 16, own ∷ []))
    × ((wait_completion 3 (cqe 199 (pos 0)) pinning).0 ≡ ok (199, pos 0))
    × (lookup 9 (wait_completion 3 (cqe 199 (pos 0)) pinning).1.keepalive ≡ some 5)
sync_takes_async_example =
    sync_takes_async 3 1 3 pinning (record { tag = 9; res = pos 16 }) own 5 pinning-open pinned_nine
      refl
