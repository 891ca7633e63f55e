-- ===== src/Pipeline/Fair.antt =====
-- csrc/uring_wrap.c, `uring_write_newfile_dynamic`: when nothing fails the file is written in full.
use pyuring.Prelude.{
  ◌∙◌, ap, suc, ◌&&◌, not, if◌then◌else◌, ◌||◌, ℕ, ◌-◌, ◌<◌, ◌≤◌, ◌≡◌, refl, true, false, length,
  arith, ◌==◌, pos, negsuc, is_neg,
}
use pyuring.CApi.{WriteDynamicCall}
use mathlib.Core.Path.{ap}
use pyuring.Pipeline.State.{File, word}
use pyuring.Pipeline.Path.{all_aligned}
use pyuring.Pipeline.Blocks.{total-empty, All}
use pyuring.Pipeline.Newfile
use pyuring.Pipeline.Newfile.{
  write_cancels, gave_up, all_written, blank, at_work, WriteRun, uring_write_newfile_dynamic,
  write_job, Writing, returns, write_out, WriteWorld, total_of,
}
use pyuring.Pipeline.Filling.{Filled}
use Newfile.{unfinished}
use pyuring.Pipeline.Written.{flowing, FineTurn, EntireTurn, loop-Closes, Closes}
use pyuring.Pipeline.Newfiles.{blank-Filled, write_job-Sound, Modest}
use Prim.Native.Nat.{zero}

-- A world in which no call fails, the callback does not ask to stop, and enough turns are seen.
pub record Fair (w : WriteWorld) (call : WriteDynamicCall) : Type 0 where
  pub open_dst : w.open_dst ≡ 0
  pub queue_init : is_neg w.queue_init ≡ false
  pub calloc : w.calloc ≡ true
  pub memalign : all_aligned w.memalign call.qd ≡ true
  pub turns : All FineTurn w.turns
  pub goes_on : (n : ℕ) → write_cancels (write_job call) n ≡ false
  pub enough : total_of call ≤ flowing w.turns
  pub fsync : w.fsync ≡ 0

unfailing :
    (asked failed n : ℕ)
    → failed ≡ 0
    → (if not (asked == 0) && not (failed == 0) then negsuc (failed - 1) else pos n) ≡ pos n
unfailing zero failed n z = refl
unfailing (suc asked) failed n z = ground arith

written_all :
    (call : WriteDynamicCall) (t : Writing) (lost : ℕ)
    → Filled (write_job call) lost t
    → at_work (write_job call) t ≡ false
    → lost ≡ 0
    → t.written ≡ total_of call
written_all call t lost f idle z =
    let none_left : length t.ring ≡ 0 = ground (arith, f.count, idle) in
    let reached : total_of call ≤ t.next_off = ground (arith, idle) in
    omega (arith, f.sum, f.within, z, reached, total-empty t.ring none_left)

write_out-Fair :
    (w : WriteWorld) (call : WriteDynamicCall) (run : WriteRun)
    → Fair w call
    → All EntireTurn w.turns
    → Closes (write_job call) w.turns 0 (total_of call) run
    → (f : File) × (write_out w call run ≡ returns (pos (total_of call)) f)
unfolding write_out
write_out-Fair w call (all_written t) fair entire (idle, (lost, (f, v))) = (
  t.dst,
  ap (λ r. returns r t.dst)
      (unfailing call.fsync w.fsync t.written fair.fsync
        ∙ ap pos (written_all call t lost f idle (v entire))),
)
write_out-Fair w call (gave_up r t) fair entire (n, p, v) =
    absurd (ground (arith, v fair.turns, fair.goes_on t.written))
write_out-Fair w call unfinished fair entire c = absurd (omega (arith, c, fair.enough))

args_ok :
    (call : WriteDynamicCall)
    → 0 < call.total_mb
    → 0 < call.block_size
    → 0 < call.qd
    → (call.total_mb == 0 || call.block_size == 0 || call.qd == 0) ≡ false
args_ok call m b q = ground arith

opened_ok : (n : ℕ) → n ≡ 0 → (n == 0) ≡ true
opened_ok n h = ground arith

-- For a queue depth below 2^32 and a block size of at most 64 MiB or no size callback, where no
-- argument is 0: when no call fails, the progress callback does not stop the writing, every completion
-- writes all of its bytes, and as many turns as bytes are seen in which liburing gives an entry and a
-- completion, the call returns the size that it set out to write.
pub write_complete :
    (w : WriteWorld) (call : WriteDynamicCall)
    → Fair w call
    → All EntireTurn w.turns
    → call.qd < word
    → Modest call
    → 0 < call.total_mb
    → 0 < call.block_size
    → 0 < call.qd
    → (f : File) × (uring_write_newfile_dynamic w call ≡ returns (pos (total_of call)) f)
unfolding uring_write_newfile_dynamic
write_complete w call fair entire lt modest m b q =
    simp
      (
        args_ok call m b q,
        opened_ok w.open_dst fair.open_dst,
        fair.queue_init,
        fair.calloc,
        fair.memalign,
      )
      (write_out-Fair w call _ fair entire (
        loop-Closes (write_job call) w.turns 0 (total_of call) blank
          (write_job-Sound call lt modest q b) (blank-Filled (write_job call)) refl (omega arith)))
