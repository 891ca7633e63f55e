-- ===== src/Pipeline/Priming.antt =====
-- csrc/uring_wrap.c, `uring_copy_path_dynamic`: the reads that prime the ring bring about what holds
-- between two turns of the loop.
use pyuring.Prelude.{
  ltb→lt, ltb, length-append, ap, Bool, ℕ, zero, suc, ◌+◌, ◌-◌, ◌*◌, ◌<◌, ◌≤◌, ◌≡◌, refl, true, ◌⊎◌,
  inl, inr, [], ◌∷◌, length, arith, Bool-cases, negsuc,
}
use pyuring.Errno.{eagain}
use pyuring.Pipeline.State.{CopySlot, File, entry, op_read, empty_file}
use pyuring.Pipeline.Copy.{
  Job, Copy, Trip, again, goto_out, blocked, prime, open_slot, queue_read, want,
}
use pyuring.Pipeline.Effort.{effort-append, effort, turns_left, Correct}
use pyuring.Pipeline.Turns.{want-within, want-fits, want-pos}
use pyuring.Pipeline.Invariant.{Live-puts, Live, Inv, Sane}
use pyuring.Pipeline.Blocks.{
  All-append_inv, total-append, Distinct-append, put_self, Out, total, All-append, Distinct,
  All-map, Apart, All,
}

-- Slots below i have a read in flight each.
pub record Primed (job : Job) (i : ℕ) (t : Copy) : Type 0 where
  entries : All (Live job t.slots t.next_off) t.pending
  distinct : Distinct t.pending
  used : All (λ e. e.slot < i) t.pending
  count : t.inflight ≡ length t.pending
  reached : length t.pending ≡ i
  sum : total t.pending ≡ t.next_off
  within : t.next_off ≤ job.file_size
  nothing : t.copied ≡ 0
  no_bytes : t.dst ≡ empty_file
  covered : (i : ℕ) → i < t.next_off → All (Out i) t.pending → ⊥
  bounded : effort t.pending ≤ 2 * t.next_off

abbrev pub Ready : Job → (ℕ → Bool) → Trip → Type 0
Ready job sqe (again t) = Inv job 0 t × (turns_left job t ≤ 2 * job.file_size) × (t.copied ≡ 0)
Ready job sqe (goto_out r t) =
    ((r ≡ negsuc (eagain - 1)) × ¬ ((i : ℕ) → sqe i ≡ true)) × Correct job t
Ready job sqe blocked = ⊥

module _ (job : Job) (i : ℕ) (t : Copy) (p : Primed job i t) where
  blank_clean : (k : ℕ) → (t.dst.bytes k ≡ 0) ⊎ (t.dst.bytes k ≡ job.content k)
  blank_clean k = inl (ap (λ (f : File). f.bytes k) p.no_bytes)

  blank-size : t.dst.size ≡ 0
  blank-size = ap (λ (f : File). f.size) p.no_bytes

  Primed-Inv : (t.next_off < job.file_size → t.inflight ≡ job.call.qd) → Inv job 0 t
  Primed-Inv busy = record {
    entries = p.entries;
    distinct = p.distinct;
    count = p.count;
    sum = omega (arith, p.sum, p.nothing);
    within = p.within;
    clean = blank_clean;
    extent = omega (arith, blank-size);
    covered = λ z k h a. absurd (p.covered k h a);
    busy = λ z. busy;
  }

  Primed-Correct : Correct job t
  Primed-Correct = record {
    clean = blank_clean;
    extent = omega (arith, blank-size);
    count = omega (arith, p.nothing);
  }

  Primed-next :
      Sane job
      → i < job.call.qd
      → t.next_off < job.file_size
      → Primed job (suc i) (queue_read job i (open_slot job i t))
  Primed-next sane lt more =
      let new = entry op_read i t.next_off (want job t.next_off) in
      let apart : All (Apart new) t.pending =
        All-map (λ e h q. omega (arith, h, q)) t.pending p.used in
      record {
        entries =
            All-append (Live job _ (t.next_off + want job t.next_off)) t.pending (new ∷ [])
              (Live-puts job t.slots t.next_off (t.next_off + want job t.next_off) new _ t.pending
                (omega arith) apart p.entries)
              (
                record {
                  seated = record {
                    tag = refl;
                    slot_lt = lt;
                    active = rw (put_self t.slots i _) refl;
                    start = rw (put_self t.slots i _) refl;
                    below = omega arith;
                    full = want-pos job sane t.next_off more;
                    fits = want-fits job sane t.next_off;
                  };
                  filled = λ q k h. ground arith;
                },
                tt,
              );
        distinct = Distinct-append t.pending new apart p.distinct;
        used =
            All-append (λ e. e.slot < suc i) t.pending (new ∷ [])
              (All-map (λ e h. omega (arith, h)) t.pending p.used) (omega arith, tt);
        count = omega (arith, p.count, length-append t.pending (new ∷ []));
        reached = omega (arith, p.reached, length-append t.pending (new ∷ []));
        sum = omega (arith, p.sum, total-append t.pending new);
        within = want-within job t.next_off more;
        nothing = p.nothing;
        no_bytes = p.no_bytes;
        covered = λ k h outs.
            let (out, last) = All-append_inv (Out k) t.pending (new ∷ []) outs in
            p.covered k (ground (arith, last.0, h)) out;
        bounded =
            omega
              (arith, p.bounded, effort-append t.pending new, want-pos job sane t.next_off more);
      }

pub start-Primed :
    (job : Job) (slots : ℕ → CopySlot)
    → Primed job 0 (record {
      slots = slots;
      next_off = 0;
      inflight = 0;
      copied = 0;
      unseen = 0;
      pending = [];
      dst = empty_file;
    })
start-Primed job slots = record {
  entries = tt;
  distinct = tt;
  used = tt;
  count = refl;
  reached = refl;
  sum = refl;
  within = omega arith;
  nothing = refl;
  no_bytes = refl;
  covered = λ i h. absurd (omega (arith, h));
  bounded = omega arith;
}

pub prime-Ready :
    (job : Job) (sqe : ℕ → Bool) (k i : ℕ) (t : Copy)
    → Sane job
    → Primed job i t
    → i + k ≡ job.call.qd
    → Ready job sqe (prime job sqe k i t)
unfolding prime
prime-Ready job sqe zero i t sane p e = (
  Primed-Inv job i t p (λ h. omega (arith, p.count, p.reached, e)),
  omega (arith, p.bounded, p.within),
  p.nothing,
)
prime-Ready job sqe (suc k) i t sane p e = elim (Bool-cases (ltb t.next_off job.file_size)) [
  | inr h ↦ simp h (
    Primed-Inv job i t p (λ l. absurd (ground arith)),
    omega (arith, p.bounded, p.within),
    p.nothing,
  )
  | inl h ↦ elim (Bool-cases (sqe i)) [
    | inl q ↦
        simp (h, q)
          (prime-Ready job sqe k (suc i) (queue_read job i (open_slot job i t)) sane
            (Primed-next job i t p sane (omega (arith, e)) (ltb→lt t.next_off job.file_size h))
            (omega (arith, e)))
    | inr q ↦
        simp (h, q)
          (
            (refl, λ all. ground (arith, all i, q)),
            record {
              clean = (Primed-Correct job i t p).clean;
              extent = (Primed-Correct job i t p).extent;
              count = (Primed-Correct job i t p).count;
            },
          )
  ]
]
