-- ===== src/Pipeline/Spread.antt =====
-- csrc/uring_wrap.c, the loop of `uring_write_manyfiles`: what holds of its files between two steps.
use pyuring.Prelude.{
  ap, sym, ℕ_discrete, ℕ, zero, suc, ◌+◌, ◌-◌, ◌*◌, ◌<◌, ◌≤◌, ◌≡◌, refl, ◌≢◌, ◌⊎◌, inl, inr, List,
  [], ◌∷◌, ◌++◌, length, arith, length-append,
}
use pyuring.CApi.{ManyCall}
use pyuring.Pipeline.State.{pack_ud, entry, op_write, File}
use pyuring.Pipeline.Blocks.{All}
use pyuring.Pipeline.Manyfiles.{many_want, per_file_bytes, Many, FileEntry, small_pattern, assign}

-- The sum of the first n values.
abbrev pub sum_to : ℕ → (ℕ → ℕ) → ℕ
sum_to zero g = 0
sum_to (suc n) g = g n + sum_to n g

sum_to-assign_above : (n : ℕ) (g : ℕ → ℕ) (i v : ℕ) → n ≤ i → sum_to n (assign g i v) ≡ sum_to n g
unfolding assign
sum_to-assign_above zero g i v h = refl
sum_to-assign_above (suc n) g i v h = ground (arith, sum_to-assign_above n g i v (omega (arith, h)))

pub sum_to-assign :
    (n : ℕ) (g : ℕ → ℕ) (i v : ℕ) → i < n → sum_to n (assign g i v) + g i ≡ sum_to n g + v
unfolding assign
sum_to-assign zero g i v h = absurd (omega (arith, h))
sum_to-assign (suc n) g i v h = elim (ℕ_discrete i n) [
  | yes e ↦ ground (arith, e, sum_to-assign_above n g i v (omega (arith, e)))
  | no ne ↦ ground (arith, ne, sum_to-assign n g i v (omega (arith, h, ne)))
]

pub sum_to-le : (n m : ℕ) (g : ℕ → ℕ) → ((i : ℕ) → g i ≤ m) → sum_to n g ≤ m * n
sum_to-le zero m g h = omega arith
sum_to-le (suc n) m g h = grind (arith, sum_to-le n m g h, h n)

-- A sum that is as large as it can be has every value as large.
pub sum_to-full :
    (n m : ℕ) (g : ℕ → ℕ) → ((i : ℕ) → g i ≤ m) → sum_to n g ≡ m * n → (i : ℕ) → i < n → g i ≡ m
sum_to-full zero m g h e i lt = absurd (omega (arith, lt))
sum_to-full (suc n) m g h e i lt =
    let below : sum_to n g ≤ m * n = sum_to-le n m g h in
    let top : g n ≤ m = h n in
    let split : m * suc n ≡ m + m * n = grind arith in
    elim (ℕ_discrete i n) [
      | yes q ↦ rw q (omega (arith, below, top, split, e))
      | no ne ↦ sum_to-full n m g h (omega (arith, below, top, split, e)) i (omega (arith, lt, ne))
    ]

-- 'a' to 'z'.
abbrev pub Small : ℕ → Type 0
Small x = (97 ≤ x) × (x ≤ 122)

pub small_pattern-Small : (i k : ℕ) → Small (small_pattern i k)
unfolding small_pattern
small_pattern-Small i k = (omega arith, omega arith)

abbrev pub total_blocks : List FileEntry → ℕ
total_blocks [] = 0
total_blocks (e ∷ es) = e.block.len + total_blocks es

total_blocks-append :
    (es : List FileEntry) (e : FileEntry)
    → total_blocks (es ++ e ∷ []) ≡ total_blocks es + e.block.len
total_blocks-append [] e = omega arith
total_blocks-append (f ∷ es) e = omega (arith, total_blocks-append es e)

-- A queued block: its slot and its file exist, and it lies below the offset of its file.
pub record Assigned (call : ManyCall) (offs : ℕ → ℕ) (e : FileEntry) : Type 0 where
  pub tag : e.block.user_data ≡ pack_ud 1 e.block.slot
  pub slot_lt : e.block.slot < call.qd
  pub file_lt : e.file < call.nfiles
  pub below : e.block.off + e.block.len ≤ offs e.file
  pub full : 0 < e.block.len

-- Byte i of file f is not in the block.
abbrev pub Beside : ℕ → ℕ → FileEntry → Type 0
Beside f i e = (e.file ≢ f) ⊎ ((i < e.block.off) ⊎ (e.block.off + e.block.len ≤ i))

pub record SpreadOf (call : ManyCall) (lost : ℕ) (offs : ℕ → ℕ) (free : List ℕ)
    (inflight written : ℕ) (ring : List FileEntry) (files : ℕ → File) : Type 0 where
  pub entries : All (Assigned call offs) ring
  pub slots : All (λ s. s < call.qd) free
  pub count : inflight ≡ length ring
  pub sum : written + total_blocks ring + lost ≡ sum_to call.nfiles offs
  pub within : (f : ℕ) → offs f ≤ per_file_bytes call
  pub extent : (f : ℕ) → (files f).size ≤ offs f
  pub covered :
      lost ≡ 0
      → (f i : ℕ) → i < offs f
      → All (Beside f i) ring
      → Small ((files f).bytes i) × (i < (files f).size)

-- Between two steps: the bytes claimed of the files are written, in flight or lost, and while nothing
-- is lost, what is claimed and not in flight is in the files.
abbrev pub Spread : ManyCall → ℕ → Many → Type 0
Spread call lost t = SpreadOf call lost t.file_off t.free_slots t.inflight t.written t.ring t.files

abbrev pub left_to_do : ManyCall → Many → ℕ
left_to_do call t =
    (per_file_bytes call * call.nfiles - sum_to call.nfiles t.file_off) + length t.ring

many_want-within :
    (call : ManyCall) (off : ℕ)
    → off < per_file_bytes call
    → off + many_want call off ≤ per_file_bytes call
many_want-within call off h = ground arith

pub many_want-pos :
    (call : ManyCall) (off : ℕ)
    → 0 < call.block_size
    → off < per_file_bytes call
    → 0 < many_want call off
many_want-pos call off b h = ground arith

assign_self : (g : ℕ → ℕ) (i v : ℕ) → assign g i v i ≡ v
unfolding assign
assign_self g i v = ground arith

pub assign-cases :
    {A : Type 0} (g : ℕ → A) (i : ℕ) (v : A) (j : ℕ)
    → ((i ≡ j) × (assign g i v j ≡ v)) ⊎ ((i ≢ j) × (assign g i v j ≡ g j))
unfolding assign
assign-cases g i v j = elim (ℕ_discrete i j) [
  | yes e ↦ inl (e, ground arith)
  | no ne ↦ inr (ne, ground arith)
]

pub All-imp :
    {A : Type 0} {P Q : A → Type 0} (f : (e : A) → P e → Q e) (es : List A) → All P es → All Q es
All-imp f [] a = tt
All-imp f (e ∷ es) a = (f e a.0, All-imp f es a.1)

pub All-snoc :
    {A : Type 0} (P : A → Type 0) (es : List A) (e : A) → All P es → P e → All P (es ++ e ∷ [])
All-snoc P [] e a p = (p, tt)
All-snoc P (f ∷ es) e a p = (a.0, All-snoc P es e a.1 p)

All-snoc_inv :
    {A : Type 0} (P : A → Type 0) (es : List A) (e : A) → All P (es ++ e ∷ []) → All P es × P e
All-snoc_inv P [] e a = (tt, a.0)
All-snoc_inv P (f ∷ es) e a = let r = All-snoc_inv P es e a.1 in ((a.0, r.0), r.1)

-- A block of file f is claimed.
module _ (call : ManyCall) (lost : ℕ) (t : Many) (f : ℕ) (inv : Spread call lost t)
    (lt : f < call.nfiles) (b : 0 < call.block_size)
    (more : t.file_off f < per_file_bytes call) where
  abbrev pub step : ℕ
  step = many_want call (t.file_off f)

  abbrev pub ahead : ℕ → ℕ
  ahead = assign t.file_off f (t.file_off f + step)

  ahead_le : (j : ℕ) → t.file_off j ≤ ahead j
  ahead_le j = elim (assign-cases t.file_off f (t.file_off f + step) j) [
    | inl h ↦ rw (h.1, sym h.0) (omega arith)
    | inr h ↦ rw h.1 (omega arith)
  ]

  pub ahead_within : (j : ℕ) → ahead j ≤ per_file_bytes call
  ahead_within j = elim (assign-cases t.file_off f (t.file_off f + step) j) [
    | inl h ↦ rw h.1 (many_want-within call (t.file_off f) more)
    | inr h ↦ rw h.1 (inv.within j)
  ]

  pub sum_ahead : sum_to call.nfiles ahead ≡ sum_to call.nfiles t.file_off + step
  sum_ahead = omega (arith, sum_to-assign call.nfiles t.file_off f (t.file_off f + step) lt)

  Assigned-ahead : (e : FileEntry) → Assigned call t.file_off e → Assigned call ahead e
  Assigned-ahead e a = record {
    tag = a.tag;
    slot_lt = a.slot_lt;
    file_lt = a.file_lt;
    below = omega (arith, a.below, ahead_le e.file);
    full = a.full;
  }

  pub Spread-skip :
      SpreadOf call (lost + step) ahead t.free_slots t.inflight t.written t.ring t.files
  Spread-skip = record {
    entries = All-imp Assigned-ahead t.ring inv.entries;
    slots = inv.slots;
    count = inv.count;
    sum = omega (arith, inv.sum, sum_ahead);
    within = ahead_within;
    extent = λ j. omega (arith, inv.extent j, ahead_le j);
    covered = λ z. absurd (omega (arith, z, many_want-pos call (t.file_off f) b more));
  }

  still_below :
      (j i : ℕ)
      → i < ahead j
      → (f ≢ j) ⊎ ((i < t.file_off f) ⊎ (t.file_off f + step ≤ i))
      → i < t.file_off j
  still_below j i h out = elim (assign-cases t.file_off f (t.file_off f + step) j) [
    | inr k ↦ omega (arith, h, k.1)
    | inl k ↦ elim out [
      | inl ne ↦ absurd (ne k.0)
      | inr away ↦
          let same : t.file_off f ≡ t.file_off j = ap t.file_off k.0 in
          ground (arith, away, h, k.1, same)
    ]
  ]

  pub Spread-queue :
      (slot : ℕ) (slots : List ℕ)
      → slot < call.qd
      → All (λ s. s < call.qd) slots
      → SpreadOf call lost ahead slots
          (suc t.inflight)
          t.written
          (t.ring ++ record { file = f; block = entry op_write slot (t.file_off f) step } ∷ [])
          t.files
  Spread-queue slot slots slot_lt free =
      let new : FileEntry = record { file = f; block = entry op_write slot (t.file_off f) step } in
      record {
        entries =
            All-snoc (Assigned call ahead) t.ring new (All-imp Assigned-ahead t.ring inv.entries)
              (record {
                tag = refl;
                slot_lt = slot_lt;
                file_lt = lt;
                below = rw (assign_self t.file_off f (t.file_off f + step)) (omega arith);
                full = many_want-pos call (t.file_off f) b more;
              });
        slots = free;
        count = omega (arith, inv.count, length-append t.ring (new ∷ []));
        sum = omega (arith, inv.sum, sum_ahead, total_blocks-append t.ring new);
        within = ahead_within;
        extent = λ j. omega (arith, inv.extent j, ahead_le j);
        covered = λ z j i h outs.
            let (out, last) = All-snoc_inv (Beside j i) t.ring new outs in
            inv.covered z j i (still_below j i h last) out;
      }
