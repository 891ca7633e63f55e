-- ===== src/Pipeline/Newfiles.antt =====
-- csrc/uring_wrap.c, `uring_write_newfile_dynamic`: what a caller can rely on.
use pyuring.Prelude.{
  ◌&&◌, not, if◌then◌else◌, ◌||◌, ℕ, ◌-◌, ◌<◌, ◌≤◌, ◌≡◌, refl, ◌≢◌, true, false, ◌⊎◌, inl, inr,
  length, arith, none, Bool-cases, ◌==◌, ℤ, pos, negsuc, is_neg,
}
use pyuring.CApi.{WriteDynamicCall}
use mathlib.Core.Path.{subst}
use pyuring.Pipeline.State.{File, word, buffer_cap, max_buffer, empty_file}
use pyuring.Pipeline.Path.{all_aligned}
use pyuring.Pipeline.Blocks.{All-empty, Out, max_buffer-least}
use pyuring.Pipeline.Outcomes.{no_callback_room}
use pyuring.Pipeline.Newfile
use pyuring.Pipeline.Newfile.{
  write_loop, gave_up, all_written, blank, at_work, WriteRun, uring_write_newfile_dynamic,
  write_job, Writing, returns, write_out, Written, WriteWorld, total_of, WriteJob,
}
use pyuring.Pipeline.Filling.{Filled, Sound, Letter}
use pyuring.Pipeline.Stages.{Partial}
use Newfile.{unfinished, unreturned}
use pyuring.Pipeline.Written.{flowing, loop-Closes, Closes}
use pyuring.Errno.{enomem}

-- A block is not larger than the cap on buffers, or there is no callback to probe.
abbrev pub Modest : WriteDynamicCall → Type 0
Modest call = (call.block_size ≤ buffer_cap) ⊎ (call.size_cb ≡ none)

capped_room :
    (call : WriteDynamicCall)
    → Modest call
    → call.block_size ≤ max_buffer call.size_cb (total_of call) call.block_size
capped_room call (inl h) = max_buffer-least call.size_cb (total_of call) call.block_size h
capped_room call (inr h) = simp h (no_callback_room (total_of call) call.block_size)

pub write_job-Sound :
    (call : WriteDynamicCall)
    → call.qd < word
    → Modest call
    → 0 < call.qd
    → 0 < call.block_size
    → Sound (write_job call)
write_job-Sound call lt modest q b = record {
  queue = q;
  queue_word = lt;
  block = b;
  room = capped_room call modest;
}

pub blank-Filled : (job : WriteJob) → Filled job 0 blank
blank-Filled job = record {
  entries = tt;
  count = refl;
  room = omega arith;
  sum = refl;
  within = omega arith;
  clean = λ i. inl refl;
  extent = omega arith;
  covered = λ z i h. absurd (omega (arith, h));
}

-- What the file is when the function returns r.
record Fills (total : ℕ) (r : ℤ) (f : File) : Type 0 where
  clean : (i : ℕ) → (f.bytes i ≡ 0) ⊎ Letter (f.bytes i)
  extent : f.size ≤ total
  least : (n : ℕ) → r ≡ pos n → n ≤ total
  exact : r ≡ pos total → (i : ℕ) → i < total → Letter (f.bytes i) × (i < f.size)

not_count : (r : ℤ) (n : ℕ) → is_neg r ≡ true → r ≢ pos n
not_count r n h e = ground arith

Partial-Fills :
    (job : WriteJob) (t : Writing) (r : ℤ)
    → is_neg r ≡ true
    → Partial job t
    → Fills job.total_bytes r t.dst
Partial-Fills job t r n p = record {
  clean = p.clean;
  extent = p.extent;
  least = λ k q. absurd (not_count r k n q);
  exact = λ q. absurd (not_count r job.total_bytes n q);
}

Filled-Fills :
    (job : WriteJob) (lost : ℕ) (t : Writing) (r : ℤ)
    → Filled job lost t
    → at_work job t ≡ false
    → (is_neg r ≡ true) ⊎ (r ≡ pos t.written)
    → Fills job.total_bytes r t.dst
Filled-Fills job lost t r f idle ret = record {
  clean = f.clean;
  extent = omega (arith, f.extent, f.within);
  least = λ n q. omega (arith, count n q, f.sum, f.within);
  exact = λ q i h.
      let same : t.written ≡ job.total_bytes = count job.total_bytes q in
      let none_left : length t.ring ≡ 0 = ground (arith, f.count, idle) in
      f.covered (omega (arith, same, f.sum, f.within)) i (omega (arith, h, same, f.sum))
        (All-empty (Out i) t.ring none_left);
}
  where
    count : (n : ℕ) → r ≡ pos n → t.written ≡ n
    count n q = elim ret [ inl h ↦ absurd (not_count r n h q) | inr h ↦ ground (arith, h, q) ]

module _ (w : WriteWorld) (call : WriteDynamicCall) where
  -- A property of what the function does, from its kinds of exit.
  module _ (P : Written → Type 0) (lt : call.qd < word) (modest : Modest call)
      (refused : (r : ℤ) → is_neg r ≡ true → P (returns r w.old))
      (early : (r : ℤ) → is_neg r ≡ true → P (returns r empty_file))
      (ran : (run : WriteRun)
        → Closes (write_job call) w.turns 0 (total_of call) run
        → P (write_out w call run)) where
    prepared :
        0 < call.qd
        → 0 < call.block_size
        → P (
            if is_neg w.queue_init
            then returns w.queue_init empty_file
            else (if not w.calloc
                then returns (negsuc (enomem - 1)) empty_file
                else (if not (all_aligned w.memalign call.qd)
                    then returns (negsuc (enomem - 1)) empty_file
                    else write_out w call (write_loop (write_job call) w.turns blank))))
    prepared q b = elim (Bool-cases (is_neg w.queue_init)) [
      | inl n ↦ simp n (early w.queue_init n)
      | inr n ↦ elim (Bool-cases w.calloc) [
        | inr c ↦ simp (n, c) (early _ refl)
        | inl c ↦ elim (Bool-cases (all_aligned w.memalign call.qd)) [
          | inr m ↦ simp (n, c, m) (early _ refl)
          | inl m ↦
              simp (n, c, m)
                (ran _ (
                  loop-Closes (write_job call) w.turns 0 (total_of call) blank
                    (write_job-Sound call lt modest q b) (blank-Filled (write_job call)) refl
                    (omega arith)))
        ]
      ]
    ]

    pub write_exits : P (uring_write_newfile_dynamic w call)
    unfolding uring_write_newfile_dynamic
    write_exits = elim (Bool-cases (call.total_mb == 0 || call.block_size == 0 || call.qd == 0)) [
      | inl a ↦ simp a (refused _ refl)
      | inr a ↦ elim (Bool-cases (w.open_dst == 0)) [
        | inr d ↦ simp (a, d) (refused _ refl)
        | inl d ↦ simp (a, d) (prepared (ground arith) (ground arith))
      ]
    ]

abbrev Comes : Written → Type 0
Comes o = (r : ℤ) × ((f : File) × (o ≡ returns r f))

write_out-Comes :
    (w : WriteWorld) (call : WriteDynamicCall) (run : WriteRun)
    → total_of call ≤ flowing w.turns
    → Closes (write_job call) w.turns 0 (total_of call) run
    → Comes (write_out w call run)
unfolding write_out
write_out-Comes w call (all_written t) h c = (_, (_, refl))
write_out-Comes w call (gave_up r t) h c = (_, (_, refl))
write_out-Comes w call unfinished h c = absurd (omega (arith, h, c))

-- For a queue depth below 2^32 and a block size of at most 64 MiB or no size callback: writing a
-- file returns once as many turns of its loop as it has bytes have brought an entry and a completion,
-- whatever else they and the turns between them bring: errors, short writes, more completions,
-- turns without an entry or without a completion.
pub write_returns :
    (w : WriteWorld) (call : WriteDynamicCall)
    → call.qd < word
    → Modest call
    → total_of call ≤ flowing w.turns
    → (r : ℤ) × ((f : File) × (uring_write_newfile_dynamic w call ≡ returns r f))
write_returns w call lt modest enough =
    write_exits w call Comes lt modest (λ r n. (r, (_, refl))) (λ r n. (r, (_, refl)))
      (λ run c. write_out-Comes w call run enough c)

abbrev Gives : WriteWorld → WriteDynamicCall → Written → Type 0
Gives w call (returns r f) = ((is_neg r ≡ true) × (f ≡ w.old)) ⊎ Fills (total_of call) r f
Gives w call unreturned = Unit

write_out-Gives :
    (w : WriteWorld) (call : WriteDynamicCall) (run : WriteRun)
    → Closes (write_job call) w.turns 0 (total_of call) run
    → Gives w call (write_out w call run)
unfolding write_out
write_out-Gives w call (all_written t) (idle, (lost, (f, v))) = inr (
    Filled-Fills (write_job call) lost t _ f idle
      (elim (Bool-cases (not (call.fsync == 0) && not (w.fsync == 0))) [
        | inl b ↦ simp b (inl refl)
        | inr b ↦ simp b (inr refl)
      ]))
write_out-Gives w call (gave_up r t) (n, p, v) =
    simp n (inr (Partial-Fills (write_job call) t r n p))
write_out-Gives w call unfinished c = tt

empty-Fills : (total : ℕ) (r : ℤ) → is_neg r ≡ true → Fills total r empty_file
empty-Fills total r n = record {
  clean = λ i. inl refl;
  extent = omega arith;
  least = λ k q. absurd (not_count r k n q);
  exact = λ q. absurd (not_count r total n q);
}

-- For a queue depth below 2^32 and a block size of at most 64 MiB or no size callback: when the
-- call returns the size it set out to write, the file has this size and a letter at every offset,
-- whatever turns the pipeline has taken: there is no hole in it, in whatever order the writes
-- have completed.
pub write_exact :
    (w : WriteWorld) (call : WriteDynamicCall) (f : File)
    → call.qd < word
    → Modest call
    → uring_write_newfile_dynamic w call ≡ returns (pos (total_of call)) f
    → (i : ℕ) → i < total_of call
    → Letter (f.bytes i) × (i < f.size) × (f.size ≤ total_of call)
write_exact w call f lt modest q i h =
    elim (subst (Gives w call) q (
      write_exits w call (Gives w call) lt modest (λ r n. inl (n, refl))
        (λ r n. inr (empty-Fills (total_of call) r n)) (write_out-Gives w call))) [
          | inl bad ↦ absurd (not_count _ (total_of call) bad.0 refl)
          | inr fills ↦ let r = fills.exact refl i h in (r.0, r.1, fills.extent)
        ]
