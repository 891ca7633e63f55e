-- ===== src/Pipeline/Soundness.antt =====
-- csrc/uring_wrap.c, `uring_copy_path_dynamic`: what each of its exits leaves in the destination.
use pyuring.Prelude.{
  lt→ltb, ltb, ◌&&◌, if◌then◌else◌, not, ℕ, zero, suc, ◌+◌, ◌<◌, ◌≤◌, ◌≡◌, refl, ◌≢◌, true, ◌⊎◌,
  inl, inr, length, arith, Bool-cases, ◌==◌, ℤ, pos, is_neg,
}
use pyuring.CApi.{CopyDynamicCall}
use pyuring.Pipeline.State.{word, File, ftruncate, empty_file}
use pyuring.Pipeline.Copy.{Copy, Run, finished, left, waiting}
use mathlib.Core.Path.{subst}
use pyuring.Pipeline.Path
use pyuring.Pipeline.Path.{
  neg_errno, job_of, uring_copy_path_dynamic, stop, Exit, returned, store, Outcome, conclude, World,
  cut_to,
}
use pyuring.Pipeline.Outcomes.{neg_errno_neg, copy_exits, source_job, Fits, truncated}
use pyuring.Pipeline.Ending.{Settled}
use Path.{waits}
use pyuring.Pipeline.Effort.{Correct}
use pyuring.Pipeline.Invariant.{Inv}
use pyuring.Pipeline.Blocks.{Out, All-empty, total}

-- What the destination `g` of a copy of `f` is when the function returns `r`: nothing wrong is in it,
-- and a count of all bytes means that it is a copy.
pub record Sound (f : File) (r : ℤ) (g : File) : Type 0 where
  pub clean : (i : ℕ) → (g.bytes i ≡ 0) ⊎ (g.bytes i ≡ f.bytes i)
  pub extent : g.size ≤ f.size
  pub all : r ≡ pos f.size → g.size ≡ f.size
  pub exact : r ≡ pos f.size → (i : ℕ) → i < f.size → g.bytes i ≡ f.bytes i

abbrev pub Leaves : World → CopyDynamicCall → File → Outcome → Type 0
Leaves w call f (returned r x) =
    ((is_neg r ≡ true) × (x.files ≡ w.files))
    ⊎ ((g : File) × (((j : ℕ) → x.files j ≡ store w.files (w.inode call.dst) g j) × Sound f r g))
Leaves w call f waits = Unit

store_twice :
    (files : ℕ → File) (i j : ℕ) (f g : File) → store (store files i f) i g j ≡ store files i g j
unfolding store
store_twice files i j f g = ground arith

reaches_size : (n m : ℕ) → m ≤ n → ((i : ℕ) → i < n → i < m) → m ≡ n
reaches_size zero m h each = omega (arith, h)
reaches_size (suc n) m h each = omega (arith, h, each n (omega arith))

pub not_counted : (r : ℤ) (n : ℕ) → is_neg r ≡ true → r ≢ pos n
not_counted r n h e = ground arith

module _ (call : CopyDynamicCall) (f : File) (r : ℤ) (t : Copy) where
  failed-Sound : is_neg r ≡ true → Correct (job_of call f) t → Sound f r t.dst
  failed-Sound n c = record {
    clean = c.clean;
    extent = c.extent;
    all = λ q. absurd (not_counted r f.size n q);
    exact = λ q. absurd (not_counted r f.size n q);
  }

  module _ (lost : ℕ) (ret : (is_neg r ≡ true) ⊎ (r ≡ pos t.copied))
      (inv : Inv (job_of call f) lost t) (idle : t.inflight ≡ 0) where
    count_eq : (n : ℕ) → r ≡ pos n → t.copied ≡ n
    count_eq n q = elim ret [ inl h ↦ absurd (not_counted r n h q) | inr h ↦ ground (arith, h, q) ]

    all_moved :
        r ≡ pos f.size → (i : ℕ) → i < f.size → (t.dst.bytes i ≡ f.bytes i) × (i < t.dst.size)
    all_moved q i h =
        let same : t.copied ≡ f.size = count_eq f.size q in
        let none_left : length t.pending ≡ 0 = omega (arith, inv.count, idle) in
        let sum : t.copied + total t.pending + lost ≡ t.next_off = inv.sum in
        inv.covered (omega (arith, same, sum, inv.within)) i (omega (arith, h, same, sum))
          (All-empty (Out i) t.pending none_left)

    ftruncate-Sound : Sound f r (ftruncate t.copied t.dst)
    unfolding ftruncate
    ftruncate-Sound = record {
      clean = λ i. elim (Bool-cases (ltb i t.copied)) [
        | inl h ↦ simp h (inv.clean i)
        | inr h ↦ simp h (inl refl)
      ];
      extent = omega (arith, inv.sum, inv.within);
      all = count_eq f.size;
      exact = λ q i h.
          simp (lt→ltb i t.copied (omega (arith, h, count_eq f.size q))) (all_moved q i h).0;
    }

    uncut-Sound : Sound f r t.dst
    uncut-Sound = record {
      clean = inv.clean;
      extent = omega (arith, inv.extent, inv.within);
      all = λ q.
          reaches_size f.size t.dst.size (omega (arith, inv.extent, inv.within))
            (λ i h. (all_moved q i h).1);
      exact = λ q i h. (all_moved q i h).0;
    }

    cut-Sound : (failed : ℕ) → Sound f r (cut_to failed t.copied t.dst)
    cut-Sound failed = elim (Bool-cases (failed == 0)) [
      | inl z ↦ simp z ftruncate-Sound
      | inr z ↦ simp z uncut-Sound
    ]

module _ (w : World) (call : CopyDynamicCall) where
  abbrev seen : File
  seen = truncated w call (w.inode call.src)

  late-Leaves :
      (r : ℤ)
      → (is_neg r ≡ true) ⊎ ((r ≡ pos 0) × (seen.size ≡ 0))
      → Leaves w call seen (stop r (truncated w call))
  late-Leaves r why = inr (
    empty_file,
    (
      (λ j. refl),
      record {
        clean = λ i. inl refl;
        extent = omega arith;
        all = λ q. elim why [
          | inl h ↦ absurd (not_counted r seen.size h q)
          | inr h ↦ omega (arith, h.1)
        ];
        exact = λ q i h. elim why [
          | inl k ↦ absurd (not_counted r seen.size k q)
          | inr k ↦ absurd (omega (arith, h, k.1))
        ];
      },
    ),
  )

  synced : (t : Copy) → ℤ
  synced t = if not (call.fsync == 0) && not (w.fsync == 0) then neg_errno w.fsync else pos t.copied

  synced_cases : (t : Copy) → (is_neg (synced t) ≡ true) ⊎ (synced t ≡ pos t.copied)
  unfolding synced
  synced_cases t = elim (Bool-cases (not (call.fsync == 0) && not (w.fsync == 0))) [
    | inl h ↦ simp h (inl (neg_errno_neg w.fsync (ground arith)))
    | inr h ↦ simp h (inr refl)
  ]

  conclude-Leaves :
      (run : Run)
      → Settled (source_job w call) 0 w.prime_left_queued w.prime_sqe w.prime_submit w.turns run
      → Leaves w call seen (conclude w (source_job w call) (truncated w call) run)
  unfolding conclude synced
  conclude-Leaves waiting s = tt
  conclude-Leaves (left r t) s = simp (s.negative) (
      inr (
        t.dst,
        (
          (λ j. store_twice w.files (w.inode call.dst) j empty_file t.dst),
          failed-Sound call seen r t s.negative s.correct,
        ),
      ))
  conclude-Leaves (finished t) s = inr (
    cut_to w.ftruncate t.copied t.dst,
    (
      (λ j. store_twice w.files (w.inode call.dst) j empty_file _),
      cut-Sound call seen _ t s.lost_at_end (synced_cases t) s.inv s.idle w.ftruncate,
    ),
  )

  pub leaves :
      (r : ℤ) (x : Exit)
      → call.qd < word
      → Fits call
      → uring_copy_path_dynamic w call ≡ returned r x
      → Leaves w call seen (returned r x)
  leaves r x lt fits q = subst (Leaves w call seen) q (
      copy_exits w call (Leaves w call seen) lt fits (λ r n. inl (n, refl)) late-Leaves
        conclude-Leaves)
