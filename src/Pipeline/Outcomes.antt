-- ===== src/Pipeline/Outcomes.antt =====
-- csrc/uring_wrap.c, `uring_copy_path_dynamic` as a whole: when it returns, what it leaves behind.
use pyuring.Prelude.{
  ◌||◌, ℕ, zero, suc, ◌<◌, ◌≤◌, ◌≡◌, refl, true, false, ◌⊎◌, inl, inr, arith, none, Bool-cases,
  ◌==◌, ℤ, pos, is_neg,
}
use pyuring.CApi.{CopyDynamicCall}
use pyuring.Pipeline.State.{word, buffer_cap, File, max_buffer, empty_file}
use pyuring.Pipeline.Copy.{loop, Job, Copy, Run}
use pyuring.Pipeline.Path.{
  all_aligned, allocate, uring_copy_path_dynamic, measure_source, conclude, stop, fresh, launch,
  store, job_of, Outcome, neg_errno, World,
}
use pyuring.Pipeline.Blocks.{max_buffer-least}
use pyuring.Pipeline.Priming.{start-Primed, prime-Ready}
use pyuring.Pipeline.Invariant.{Inv, Sane}
use pyuring.Pipeline.Ending.{Flow, Ended, loop-Ended, launched-Settled, Settled}
use pyuring.Pipeline.Effort.{turns_left}

-- A block is not larger than the cap on buffers, or there is no callback to probe. Without this a
-- block can be larger than its buffer.
abbrev pub Fits : CopyDynamicCall → Type 0
Fits call = (call.block_size ≤ buffer_cap) ⊎ (call.size_cb ≡ none)

-- The source as it is after the destination has been emptied.
abbrev pub truncated : World → CopyDynamicCall → ℕ → File
truncated w call = store w.files (w.inode call.dst) empty_file

abbrev pub source_job : World → CopyDynamicCall → Job
source_job w call = job_of call (truncated w call (w.inode call.src))

pub neg_errno_neg : (e : ℕ) → (e == 0) ≡ false → is_neg (neg_errno e) ≡ true
neg_errno_neg zero h = ground arith
neg_errno_neg (suc e) h = refl

pub no_callback_room : (total block_size : ℕ) → block_size ≤ max_buffer none total block_size
unfolding max_buffer
no_callback_room total block_size = omega arith

max_buffer-room :
    (call : CopyDynamicCall) (total : ℕ)
    → Fits call
    → call.block_size ≤ max_buffer call.size_cb total call.block_size
max_buffer-room call total (inl h) = max_buffer-least call.size_cb total call.block_size h
max_buffer-room call total (inr h) = rw h (no_callback_room total call.block_size)

module _ (w : World) (call : CopyDynamicCall) where
  pub job-Sane :
      call.qd < word → Fits call → 0 < call.qd → 0 < call.block_size → Sane (source_job w call)
  job-Sane lt fits q b = record {
    queue = q;
    queue_word = lt;
    block = b;
    room = max_buffer-room call _ fits;
  }

  pub launch-Settled :
      (lost : ℕ)
      → Sane (source_job w call)
      → ((t : Copy)
          → Inv (source_job w call) 0 t
          → t.copied ≡ 0
          → Ended
              (source_job w call)
              lost
              w.turns
              (Flow t w.turns)
              (turns_left (source_job w call) t)
              (loop (source_job w call) w.turns t))
      → Settled
          (source_job w call)
          lost
          w.prime_left_queued
          w.prime_sqe
          w.prime_submit
          w.turns
          (launch w (source_job w call))
  unfolding launch
  launch-Settled lost sane loops =
      launched-Settled (source_job w call) lost w.prime_left_queued w.prime_sqe w.prime_submit
        w.turns _ sane loops
        (prime-Ready (source_job w call) w.prime_sqe call.qd 0 (fresh w) sane
          (start-Primed (source_job w call) (fresh w).slots) (omega arith))

  pub any_launch-Settled :
      Sane (source_job w call)
      → Settled
          (source_job w call)
          0
          w.prime_left_queued
          w.prime_sqe
          w.prime_submit
          w.turns
          (launch w (source_job w call))
  any_launch-Settled sane =
      launch-Settled 0 sane (λ t inv z. loop-Ended (source_job w call) 0 w.turns t sane inv)

  -- A property of what the function does, from its three kinds of exit.
  module _ (P : Outcome → Type 0) (lt : call.qd < word) (fits : Fits call)
      (early : (r : ℤ) → is_neg r ≡ true → P (stop r w.files))
      (late : (r : ℤ)
        → (is_neg r ≡ true) ⊎ ((r ≡ pos 0) × ((truncated w call (w.inode call.src)).size ≡ 0))
        → P (stop r (truncated w call)))
      (ran : (run : Run)
        → Settled (source_job w call) 0 w.prime_left_queued w.prime_sqe w.prime_submit w.turns run
        → P (conclude w (source_job w call) (truncated w call) run)) where
    allocate-exits :
        0 < call.qd → 0 < call.block_size → P (allocate w (source_job w call) (truncated w call))
    unfolding allocate
    allocate-exits q b = elim (Bool-cases (is_neg w.queue_init)) [
      | inl n ↦ simp n (late w.queue_init (inl n))
      | inr n ↦ elim (Bool-cases w.calloc) [
        | inr c ↦ simp (n, c) (late _ (inl refl))
        | inl c ↦ elim (Bool-cases (all_aligned w.memalign call.qd)) [
          | inr m ↦ simp (n, c, m) (late _ (inl refl))
          | inl m ↦ simp (n, c, m) (ran _ (any_launch-Settled (job-Sane lt fits q b)))
        ]
      ]
    ]

    measure-exits : 0 < call.qd → 0 < call.block_size → P (measure_source w call (truncated w call))
    unfolding measure_source
    measure-exits q b = elim (Bool-cases (w.fstat == 0)) [
      | inr f ↦ simp f (late (neg_errno w.fstat) (inl (neg_errno_neg w.fstat f)))
      | inl f ↦ elim (Bool-cases ((truncated w call (w.inode call.src)).size == 0)) [
        | inl z ↦ simp (f, z) (late (pos 0) (inr (refl, ground arith)))
        | inr z ↦ simp (f, z) (allocate-exits q b)
      ]
    ]

    pub copy_exits : P (uring_copy_path_dynamic w call)
    unfolding uring_copy_path_dynamic
    copy_exits = elim (Bool-cases (call.qd == 0 || call.block_size == 0)) [
      | inl a ↦ simp a (early _ refl)
      | inr a ↦ elim (Bool-cases (w.open_src == 0)) [
        | inr s ↦ simp (a, s) (early (neg_errno w.open_src) (neg_errno_neg w.open_src s))
        | inl s ↦ elim (Bool-cases (w.open_dst == 0)) [
          | inr d ↦ simp (a, s, d) (early (neg_errno w.open_dst) (neg_errno_neg w.open_dst d))
          | inl d ↦ simp (a, s, d) (measure-exits (ground arith) (ground arith))
        ]
      ]
    ]
