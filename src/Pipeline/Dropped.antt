-- ===== src/Pipeline/Dropped.antt =====
-- csrc/uring_wrap.c, `uring_copy_path_dynamic`: what is in flight when the function gives up.
use pyuring.Prelude.{ℕ, ◌<◌, ◌≡◌, true, false, length, ℤ, is_neg}
use pyuring.CApi.{CopyDynamicCall}
use pyuring.Pipeline.Copy.{Copy, Trip, again, goto_out, blocked, Run, finished, left, waiting}
use pyuring.Pipeline.Path.{World, Exit, returned, Outcome, all_aligned}

-- Everything before the loop succeeds.
pub record Begins (w : World) (call : CopyDynamicCall) : Type 0 where
  pub open_src : w.open_src ≡ 0
  pub open_dst : w.open_dst ≡ 0
  pub fstat : w.fstat ≡ 0
  pub queue_init : is_neg w.queue_init ≡ false
  pub calloc : w.calloc ≡ true
  pub memalign : all_aligned w.memalign call.qd ≡ true
  pub prime_sqe : (i : ℕ) → w.prime_sqe i ≡ true
  pub prime_submit : is_neg w.prime_submit ≡ false
  pub prime_flushes : w.prime_left_queued ≡ 0

-- Out of the loop with an error and something in flight.
abbrev Drops : Trip → Type 0
Drops (again t) = ⊥
Drops (goto_out r t) = (is_neg r ≡ true) × (0 < length t.pending)
Drops blocked = ⊥

abbrev RunDrops : Run → Type 0
RunDrops (finished t) = ⊥
RunDrops (left r t) = (is_neg r ≡ true) × (0 < length t.pending)
RunDrops waiting = ⊥

abbrev GivesUp : Outcome → Type 0
GivesUp o =
    (r : ℤ) × ((x : Exit) × ((o ≡ returned r x) × (is_neg r ≡ true) × (0 < length x.pending)))
