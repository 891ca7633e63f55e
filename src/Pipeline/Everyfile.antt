-- ===== src/Pipeline/Everyfile.antt =====
-- csrc/uring_wrap.c, `uring_write_manyfiles` as a whole: that it returns, and what its files hold.
use pyuring.Prelude.{
  not, ◌&&◌, ◌||◌, ℕ, zero, suc, ◌*◌, ◌<◌, ◌≤◌, ◌≡◌, refl, ◌≢◌, true, inl, inr, List, [], ◌∷◌,
  length, arith, Bool-cases, ◌==◌, ℤ, pos, is_neg,
}
use mathlib.Core.Path.{subst}
use pyuring.CApi.{ManyCall}
use pyuring.Pipeline.State.{word, File}
use pyuring.Pipeline.Blocks.{All}
use pyuring.Pipeline.Manyfiles
use pyuring.Pipeline.Manyfiles.{per_file_bytes, ManyRun, over, dropped_out, many_loop, Many}
use pyuring.Pipeline.Manycall
use pyuring.Pipeline.Manycall.{
  Manyed, gives_back, many_start, many_end, run_many, uring_write_manyfiles, all_slots, ManyWorld,
  fsync_files, open_files, Opening, all_open, refused,
}
use pyuring.Pipeline.Spread.{Spread, Small, sum_to, sum_to-full, sum_to-le}
use pyuring.Pipeline.Manyfilled.{Stops, many_loop-Stops}
use Manyfiles.{endless}
use Manycall.{never}

-- Every file has its size, and holds small letters only.
pub record Whole (call : ManyCall) (files : ℕ → File) : Type 0 where
  pub size : (f : ℕ) → f < call.nfiles → (files f).size ≡ per_file_bytes call
  pub letters : (f i : ℕ) → f < call.nfiles → i < per_file_bytes call → Small ((files f).bytes i)

abbrev pub all_bytes : ManyCall → ℕ
all_bytes call = per_file_bytes call * call.nfiles

sum_to_zero : (n : ℕ) → sum_to n (λ f. 0) ≡ 0
sum_to_zero zero = refl
sum_to_zero (suc n) = omega (arith, sum_to_zero n)

all_slots_lt : (n q : ℕ) → n ≤ q → All (λ s. s < q) (all_slots n)
all_slots_lt zero q h = tt
all_slots_lt (suc n) q h = (omega (arith, h), all_slots_lt n q (omega (arith, h)))

nothing : {A : Type 0} (P : A → Type 0) (es : List A) → length es ≡ 0 → All P es
nothing P [] h = tt
nothing P (e ∷ es) h = absurd (omega (arith, h))

full_size : (p s : ℕ) → s ≤ p → ((i : ℕ) → i < p → i < s) → s ≡ p
full_size zero s h all = omega (arith, h)
full_size (suc p) s h all = omega (arith, h, all p (omega arith))

Spread-start : (call : ManyCall) → Spread call 0 (many_start call)
Spread-start call = record {
  entries = tt;
  slots = all_slots_lt call.qd call.qd (omega arith);
  count = refl;
  sum = omega (arith, sum_to_zero call.nfiles);
  within = λ f. omega arith;
  extent = λ f. omega arith;
  covered = λ z f i h outs. absurd (omega (arith, h));
}

Spread-Whole :
    (call : ManyCall) (lost : ℕ) (t : Many)
    → Spread call lost t
    → t.inflight ≡ 0
    → t.written ≡ all_bytes call
    → Whole call t.files
Spread-Whole call lost t inv idle done =
    let most : sum_to call.nfiles t.file_off ≤ all_bytes call =
      sum_to-le call.nfiles (per_file_bytes call) t.file_off inv.within in
    let kept : lost ≡ 0 = omega (arith, most, done, inv.sum) in
    let full : sum_to call.nfiles t.file_off ≡ all_bytes call =
      omega (arith, most, done, inv.sum) in
    let ends : (f : ℕ) → f < call.nfiles → t.file_off f ≡ per_file_bytes call =
      sum_to-full call.nfiles (per_file_bytes call) t.file_off inv.within full in
    let here : (f i : ℕ)
        → f < call.nfiles
        → i < per_file_bytes call
        → Small ((t.files f).bytes i) × (i < (t.files f).size) =
      λ f i lt h.
        inv.covered kept f i (omega (arith, h, ends f lt))
          (nothing _ t.ring (omega (arith, idle, inv.count))) in
    record {
      size = λ f lt.
          full_size (per_file_bytes call) (t.files f).size
            (omega (arith, inv.extent f, inv.within f)) (λ i h. (here f i lt h).1);
      letters = λ f i lt h. (here f i lt h).0;
    }

-- An answer: all bytes counted leave the files whole, and without one the turns were too few.
abbrev Gives : ManyWorld → ManyCall → Manyed → Type 0
Gives w call (gives_back r files) = r ≡ pos (all_bytes call) → Whole call files
Gives w call never = length w.turns < suc (all_bytes call)

not_all : (r : ℤ) (k : ℕ) → is_neg r ≡ true → r ≢ pos k
not_all r k n e = ground arith

all_counted : (n m : ℕ) → pos n ≡ pos m → n ≡ m
all_counted n m e = ground arith

many_end-Gives :
    (w : ManyWorld) (call : ManyCall) (run : ManyRun)
    → Stops call w.turns (suc (all_bytes call)) run
    → Gives w call (many_end w call run)
unfolding many_end
many_end-Gives w call (over t) (lost, (inv, idle)) =
    elim (Bool-cases (not (call.fsync_end == 0) && not (fsync_files w call.nfiles 0 == 0))) [
      | inl b ↦ simp b (λ q. absurd (not_all _ _ refl q))
      | inr b ↦
          simp b (λ q. Spread-Whole call lost t inv idle (all_counted t.written (all_bytes call) q))
    ]
many_end-Gives w call (dropped_out r t) n = simp n (λ q. absurd (not_all r _ n q))
many_end-Gives w call endless h = h

module _ (w : ManyWorld) (call : ManyCall) (qd_word : call.qd < word) where
  run_many-Gives :
      0 < call.nfiles → 0 < call.block_size → (o : Opening) → Gives w call (run_many w call o)
  unfolding run_many
  run_many-Gives some_files b (refused e) = λ q. absurd (not_all _ _ refl q)
  run_many-Gives some_files b all_open = elim (Bool-cases (is_neg w.queue_init)) [
    | inl n ↦ simp n (λ q. absurd (not_all w.queue_init _ n q))
    | inr n ↦ elim (Bool-cases w.allocs) [
      | inr a ↦ simp (n, a) (λ q. absurd (not_all _ _ refl q))
      | inl a ↦
          simp (n, a)
            (many_end-Gives w call (many_loop call w.turns (many_start call)) (
              many_loop-Stops call qd_word some_files b w.turns 0 (suc (all_bytes call))
                (many_start call) (Spread-start call) (omega arith)))
    ]
  ]

  manyfiles-Gives : Gives w call (uring_write_manyfiles w call)
  unfolding uring_write_manyfiles
  manyfiles-Gives =
      elim (Bool-cases
        (call.nfiles == 0 || call.mb_per_file == 0 || call.block_size == 0 || call.qd == 0)) [
          | inl z ↦ simp z (λ q. absurd (not_all _ _ refl q))
          | inr z ↦ elim (Bool-cases w.alloc_fds) [
            | inr a ↦ simp (z, a) (λ q. absurd (not_all _ _ refl q))
            | inl a ↦
                simp (z, a)
                  (run_many-Gives (ground (arith, z)) (ground (arith, z))
                    (open_files w call.nfiles 0))
          ]
        ]

-- For a queue depth below 2^32: when writing many files returns that it wrote all their bytes, each
-- file holds exactly its size in small letters, whatever the kernel answered, and in whatever order
-- the entries of the files completed.
pub many_exact :
    (w : ManyWorld) (call : ManyCall) (files : ℕ → File)
    → call.qd < word
    → uring_write_manyfiles w call ≡ gives_back (pos (all_bytes call)) files
    → Whole call files
many_exact w call files lt e = subst (Gives w call) e (manyfiles-Gives w call lt) refl

comes_back :
    (w : ManyWorld) (call : ManyCall) (d : Manyed)
    → Gives w call d
    → all_bytes call < length w.turns
    → (r : ℤ) × ((files : ℕ → File) × (d ≡ gives_back r files))
comes_back w call (gives_back r files) g h = (r, (files, refl))
comes_back w call never g h = absurd (omega (arith, g, h))

-- For a queue depth below 2^32: writing many files always returns. After at most one turn of the loop
-- for every byte of the files and one more, whatever the kernel answers, it has come to an end.
pub many_returns :
    (w : ManyWorld) (call : ManyCall)
    → call.qd < word
    → all_bytes call < length w.turns
    → (r : ℤ) × ((files : ℕ → File) × (uring_write_manyfiles w call ≡ gives_back r files))
many_returns w call lt enough =
    comes_back w call (uring_write_manyfiles w call) (manyfiles-Gives w call lt) enough
