-- ===== src/Pipeline/Complete.antt =====
-- csrc/uring_wrap.c, `uring_copy_path_dynamic`: when nothing fails the copy is complete; when a transfer
-- is short, the count that is returned says so.
use pyuring.Prelude.{
  ℕ_discrete, ◌||◌, ltb→lt, ap, sym, ◌∙◌, ltb, ◌&&◌, if◌then◌else◌, not, ℕ, zero, suc, ◌*◌, ◌<◌,
  ◌≤◌, ◌≡◌, refl, ◌≢◌, true, false, inl, inr, List, [], ◌∷◌, length, arith, Bool-cases, ◌==◌, ℤ,
  pos, is_neg,
}
use pyuring.CApi.{CopyDynamicCall}
use pyuring.Pipeline.State.{Turn, word, File}
use pyuring.Pipeline.Copy.{loop, Job, Copy, Run, finished, left, waiting, cancels}
use mathlib.Core.Path.{ap, sym, subst}
use pyuring.Pipeline.Path.{
  allocate, measure_source, all_aligned, neg_errno, uring_copy_path_dynamic, Exit, returned,
  Outcome, conclude, World,
}
use pyuring.Pipeline.Outcomes.{job-Sane, launch-Settled, source_job, Fits, truncated}
use pyuring.Pipeline.Ending.{loop-Short, loop-Ended, Ended, Flow, Finish, Whole, Answered, Settled}
use pyuring.Pipeline.Effort.{turns_left}
use pyuring.Pipeline.Invariant.{Sane, Inv}
use pyuring.Pipeline.Blocks.{total-empty, All, All-map, total}
use pyuring.Pipeline.Copied.{seen_source, truncated-size}

-- A world in which no call fails, every submission takes what is queued, the callback does not ask to stop, and enough turns are seen.
pub record Smooth (w : World) (call : CopyDynamicCall) : Type 0 where
  pub open_src : w.open_src ≡ 0
  pub open_dst : w.open_dst ≡ 0
  pub fstat : w.fstat ≡ 0
  pub queue_init : is_neg w.queue_init ≡ false
  pub calloc : w.calloc ≡ true
  pub memalign : all_aligned w.memalign call.qd ≡ true
  pub prime_sqe : (i : ℕ) → w.prime_sqe i ≡ true
  pub prime_submit : is_neg w.prime_submit ≡ false
  pub prime_flushes : w.prime_left_queued ≡ 0
  pub answered : All Answered w.turns
  pub enough : 2 * (w.files (w.inode call.src)).size ≤ length w.turns
  pub goes_on : (n : ℕ) → cancels (source_job w call) n ≡ false
  pub fsync : w.fsync ≡ 0

-- The call returns what its loop has counted, and the loop has lost at least `lost` bytes.
abbrev Counts : World → CopyDynamicCall → ℕ → Outcome → Type 0
Counts w call lost o =
    (t : Copy) × (Finish (source_job w call) lost w.turns t
      × ((x : Exit) × (o ≡ returned (pos t.copied) x)))

returned_cong : {r q : ℤ} {x : Exit} → r ≡ q → returned r x ≡ returned q x
returned_cong {x} e = ap (λ r. returned r x) e

unfailing :
    (asked failed copied : ℕ)
    → failed ≡ 0
    → (if not (asked == 0) && not (failed == 0) then neg_errno failed else pos copied) ≡ pos copied
unfailing zero failed copied z = refl
unfailing (suc asked) failed copied z = ground arith

pub ==_of : (n : ℕ) → n ≡ 0 → (n == 0) ≡ true
==_of n h = ground arith

nonzero : (n : ℕ) → 0 < n → (n == 0) ≡ false
nonzero n h = ground arith

pub args_ok : (qd block : ℕ) → 0 < qd → 0 < block → (qd == 0 || block == 0) ≡ false
args_ok qd block h k = ground arith

conclude-Counts :
    (w : World) (call : CopyDynamicCall) (lost : ℕ) (run : Run)
    → Smooth w call
    → Settled (source_job w call) lost w.prime_left_queued w.prime_sqe w.prime_submit w.turns run
    → Counts w call lost (conclude w (source_job w call) (truncated w call) run)
unfolding conclude
conclude-Counts w call lost waiting smooth s =
    let flushed = All-map (λ turn (a : Answered turn). a.flushes) w.turns smooth.answered in
    absurd (omega (arith, s (smooth.prime_flushes, flushed), smooth.enough, truncated-size w call))
conclude-Counts w call lost (left r t) smooth s =
    let stop = (s.cancelled smooth.prime_sqe smooth.prime_submit smooth.answered).0 in
    absurd (ground (arith, stop, smooth.goes_on t.copied))
conclude-Counts w call lost (finished t) smooth s =
    (t, (s, (_, returned_cong (unfailing call.fsync w.fsync t.copied smooth.fsync))))

module _ (w : World) (call : CopyDynamicCall) (smooth : Smooth w call) (lt : call.qd < word)
    (fits : Fits call) (q : 0 < call.qd) (b : 0 < call.block_size) where
  copied_total :
      (lost : ℕ)
      → ((t : Copy)
          → Inv (source_job w call) 0 t
          → t.copied ≡ 0
          → Ended
              (source_job w call)
              lost
              w.turns
              (Flow t w.turns)
              (turns_left (source_job w call) t)
              (loop (source_job w call) w.turns t))
      → 0 < (truncated w call (w.inode call.src)).size
      → Counts w call lost (uring_copy_path_dynamic w call)
  unfolding uring_copy_path_dynamic measure_source allocate
  copied_total lost loops big =
      simp
        (
          args_ok call.qd call.block_size q b,
          ==_of w.open_src smooth.open_src,
          ==_of w.open_dst smooth.open_dst,
          ==_of w.fstat smooth.fstat,
          nonzero _ big,
          smooth.queue_init,
          smooth.calloc,
          smooth.memalign,
        )
        (conclude-Counts w call lost _ smooth
          (launch-Settled w call lost (job-Sane w call lt fits q b) loops))

  copy_nothing :
      (truncated w call (w.inode call.src)).size ≡ 0
      → uring_copy_path_dynamic w call
        ≡ returned (pos 0) (record { files = truncated w call; pending = [] })
  unfolding uring_copy_path_dynamic measure_source
  copy_nothing none_left =
      simp
        (
          args_ok call.qd call.block_size q b,
          ==_of w.open_src smooth.open_src,
          ==_of w.open_dst smooth.open_dst,
          ==_of w.fstat smooth.fstat,
          ==_of _ none_left,
        )
        refl

  idle_none :
      (lost : ℕ) (turns : List Turn) (t : Copy)
      → Finish (source_job w call) lost turns t
      → total t.pending ≡ 0
  idle_none lost turns t f = total-empty t.pending (omega (arith, f.inv.count, f.idle))

  moved_all :
      (turns : List Turn) (t : Copy)
      → Finish (source_job w call) 0 turns t
      → All Whole turns
      → t.copied ≡ (truncated w call (w.inode call.src)).size
  moved_all turns t f whole =
      elim (Bool-cases (ltb t.next_off (truncated w call (w.inode call.src)).size)) [
        | inl h ↦
            absurd (omega (arith, q, f.idle, f.inv.busy (f.whole whole) (ltb→lt t.next_off _ h)))
        | inr h ↦
            let reached : (truncated w call (w.inode call.src)).size ≤ t.next_off = ground arith in
            omega (arith, f.inv.sum, f.inv.within, f.whole whole, reached, idle_none 0 turns t f)
      ]

-- For a queue depth below 2^32 and a block size of at most 64 MiB or no size callback, where
-- neither depth nor size is 0 and the destination is not the source: when no call fails and every submission takes what is queued, the
-- progress callback does not stop the copy, no transfer is short, and two turns for every byte
-- are seen, the copy returns the size of its source, in whatever order the entries complete.
pub copy_complete :
    (w : World) (call : CopyDynamicCall)
    → Smooth w call
    → call.qd < word
    → Fits call
    → 0 < call.qd
    → 0 < call.block_size
    → w.inode call.src ≢ w.inode call.dst
    → All Whole w.turns
    → (x : Exit) × (uring_copy_path_dynamic w call
        ≡ returned (pos (w.files (w.inode call.src)).size) x)
copy_complete w call smooth lt fits q b apart whole =
    elim (ℕ_discrete (truncated w call (w.inode call.src)).size 0) [
      | yes z ↦ (
        _,
        copy_nothing w call smooth lt fits q b z
            ∙ returned_cong (ap pos (sym z ∙ ap (λ (f : File). f.size) (seen_source w call apart))),
      )
      | no big ↦
          let (t, (f, (x, e))) =
            copied_total w call smooth lt fits q b 0
              (λ t inv z.
                loop-Ended (source_job w call) 0 w.turns t (job-Sane w call lt fits q b) inv)
              (ground arith) in
          (
            x,
            e
                ∙ returned_cong (
                    ap pos (
                      moved_all w call smooth lt fits q b w.turns t f whole
                      ∙ ap (λ (f : File). f.size) (seen_source w call apart))),
          )
    ]

loops_short :
    (job : Job) (turn : Turn) (rest turns : List Turn)
    → Sane job
    → 0 < job.file_size
    → 0 < turn.lack
    → turn ∷ rest ≡ turns
    → (t : Copy) → Inv job 0 t
    → t.copied ≡ 0
    → Ended job 1 turns (Flow t turns) (turns_left job t) (loop job turns t)
loops_short job turn rest turns sane big short q t inv z =
    subst (λ ts. Ended job 1 ts (Flow t ts) (turns_left job t) (loop job ts t)) q
      (loop-Short job turn rest t sane short inv (elim (ℕ_discrete t.inflight 0) [
        | no h ↦ omega (arith, h)
        | yes h ↦
            let start : t.next_off ≡ 0 =
              omega (arith, inv.sum, z, total-empty t.pending (omega (arith, inv.count, h))) in
            absurd (omega (arith, h, sane.queue, inv.busy refl (omega (arith, start, big))))
      ]))

-- A short transfer is not made good: under the conditions of a complete copy, but for a first
-- completion that moves fewer bytes than asked, the copy of a source that is not empty returns a
-- count below the source's size, which is no error.
pub short_copy_succeeds :
    (w : World) (call : CopyDynamicCall) (turn : Turn) (rest : List Turn)
    → Smooth w call
    → call.qd < word
    → Fits call
    → 0 < call.qd
    → 0 < call.block_size
    → w.inode call.src ≢ w.inode call.dst
    → 0 < (w.files (w.inode call.src)).size
    → turn ∷ rest ≡ w.turns
    → 0 < turn.lack
    → (n : ℕ) × ((x : Exit) × ((uring_copy_path_dynamic w call ≡ returned (pos n) x)
          × (n < (w.files (w.inode call.src)).size)))
short_copy_succeeds w call turn rest smooth lt fits q b apart big turns short =
    let same : (truncated w call (w.inode call.src)).size ≡ (w.files (w.inode call.src)).size =
      ap (λ (f : File). f.size) (seen_source w call apart) in
    let (t, (f, (x, e))) =
      copied_total w call smooth lt fits q b 1
        (loops_short (source_job w call) turn rest w.turns (job-Sane w call lt fits q b)
          (omega (arith, same, big)) short turns)
        (omega (arith, same, big)) in
    (t.copied, (x, (e, omega (arith, same, f.inv.sum, f.inv.within, f.least))))
