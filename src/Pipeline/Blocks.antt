-- ===== src/Pipeline/Blocks.antt =====
-- What the pipelines' proofs use of lists of entries, user data and slots.
use pyuring.Prelude.{
  ltb, ◌-◌, sym, ap, Option, max, ℕ, zero, suc, ◌+◌, ◌<◌, ◌≤◌, ◌≡◌, refl, ◌≢◌, ◌⊎◌, inl, inr, List,
  [], ◌∷◌, ◌++◌, length, arith, none, some, Bool-cases,
}
use pyuring.Pipeline.State.{
  File, pread, pwrite, word, pack_ud, ud_op, ud_slot, Entry, taken, put, CopySlot, max_buffer,
  probe, buffer_cap, want_at, SizeCb,
}

pub ud_op-pack_ud : (op slot : ℕ) → op < word → ud_op (pack_ud op slot) ≡ op
unfolding ud_op pack_ud
ud_op-pack_ud op slot h = omega arith

pub ud_slot-pack_ud : (op slot : ℕ) → slot < word → ud_slot (pack_ud op slot) ≡ slot
unfolding ud_slot pack_ud
ud_slot-pack_ud op slot h = omega arith

abbrev pub All {ℓ κ} : {A : Type ℓ} → (A → Type κ) → List A → Type κ
All P [] = Unit
All P (e ∷ es) = P e × All P es

abbrev pub total : List Entry → ℕ
total [] = 0
total (e ∷ es) = e.len + total es

abbrev pub Apart : Entry → Entry → Type 0
Apart e f = e.slot ≢ f.slot

-- Every entry has a slot of its own.
abbrev pub Distinct : List Entry → Type 0
Distinct [] = Unit
Distinct (e ∷ es) = All (Apart e) es × Distinct es

module _ {ℓ κ} {A : Type ℓ} (P : A → Type κ) where
  pub All-append : (es fs : List A) → All P es → All P fs → All P (es ++ fs)
  All-append [] fs a b = b
  All-append (e ∷ es) fs a b = (a.0, All-append es fs a.1 b)

  pub All-empty : (es : List A) → length es ≡ 0 → All P es
  All-empty [] h = tt
  All-empty (e ∷ es) h = absurd (omega (arith, h))

  pub All-append_inv : (es fs : List A) → All P (es ++ fs) → All P es × All P fs
  All-append_inv [] fs a = (tt, a)
  All-append_inv (e ∷ es) fs a = let r = All-append_inv es fs a.1 in ((a.0, r.0), r.1)

  pub All-taken :
      (i : ℕ) (e : A) (es : List A) → All P (e ∷ es) → P (taken i e es).0 × All P (taken i e es).1
  unfolding taken
  All-taken i e [] a = (a.0, tt)
  All-taken zero e (f ∷ es) a = (a.0, a.1)
  All-taken (suc i) e (f ∷ es) a = let r = All-taken i f es a.1 in (r.0, (a.0, r.1))

  pub All-taken_inv :
      (i : ℕ) (e : A) (es : List A) → P (taken i e es).0 → All P (taken i e es).1 → All P (e ∷ es)
  unfolding taken
  All-taken_inv i e [] p a = (p, tt)
  All-taken_inv zero e (f ∷ es) p a = (p, a)
  All-taken_inv (suc i) e (f ∷ es) p a = (a.0, All-taken_inv i f es p a.1)

pub All-map :
    {A : Type 0} {P Q : A → Type 0} (f : (e : A) → P e → Q e) (es : List A) → All P es → All Q es
All-map f [] a = tt
All-map f (e ∷ es) a = (f e a.0, All-map f es a.1)

pub Distinct-taken :
    (i : ℕ) (e : Entry) (es : List Entry)
    → Distinct (e ∷ es)
    → All (Apart (taken i e es).0) (taken i e es).1 × Distinct (taken i e es).1
unfolding taken
Distinct-taken i e [] d = (tt, tt)
Distinct-taken zero e (f ∷ es) d = (d.0, d.1)
Distinct-taken (suc i) e (f ∷ es) d =
    let r = Distinct-taken i f es d.1 in
    let s = All-taken (Apart e) i f es d.0 in (((λ q. s.0 (sym q)), r.0), (s.1, r.1))

pub Distinct-append :
    (es : List Entry) (f : Entry) → All (Apart f) es → Distinct es → Distinct (es ++ f ∷ [])
Distinct-append [] f a d = (tt, tt)
Distinct-append (e ∷ es) f a d =
    (All-append (Apart e) es (f ∷ []) d.0 ((λ q. a.0 (sym q)), tt), Distinct-append es f a.1 d.1)

pub total-empty : (es : List Entry) → length es ≡ 0 → total es ≡ 0
total-empty [] h = refl
total-empty (e ∷ es) h = absurd (omega (arith, h))

pub total-append : (es : List Entry) (f : Entry) → total (es ++ f ∷ []) ≡ total es + f.len
total-append [] f = omega arith
total-append (e ∷ es) f = omega (arith, total-append es f)

pub total-taken :
    (i : ℕ) (e : Entry) (es : List Entry)
    → e.len + total es ≡ (taken i e es).0.len + total (taken i e es).1
unfolding taken
total-taken i e [] = refl
total-taken zero e (f ∷ es) = refl
total-taken (suc i) e (f ∷ es) = omega (arith, total-taken i f es)

pub length-taken {ℓ} :
    {A : Type ℓ} (i : ℕ) (e : A) (es : List A) → length (taken i e es).1 ≡ length es
unfolding taken
length-taken i e [] = refl
length-taken zero e (f ∷ es) = refl
length-taken (suc i) e (f ∷ es) = ap suc (length-taken i f es)

pub put_self : (slots : ℕ → CopySlot) (i : ℕ) (s : CopySlot) → put slots i s i ≡ s
unfolding put
put_self slots i s = ground arith

pub put_ne : (slots : ℕ → CopySlot) (i j : ℕ) (s : CopySlot) → i ≢ j → put slots i s j ≡ slots j
unfolding put
put_ne slots i j s h = ground arith

pub want_at-pos :
    (cb : Option SizeCb) (total block_size max_size off : ℕ)
    → 0 < block_size
    → off < total
    → 0 < want_at cb total block_size max_size off
unfolding want_at
want_at-pos none total block_size max_size off h k = ground arith
want_at-pos (some cb) total block_size max_size off h k = ground arith

pub want_at-within :
    (cb : Option SizeCb) (total block_size max_size off : ℕ)
    → off < total
    → off + want_at cb total block_size max_size off ≤ total
unfolding want_at
want_at-within none total block_size max_size off k = ground arith
want_at-within (some cb) total block_size max_size off k = ground arith

-- The buffers are large enough for any block.
pub want_at-fits :
    (cb : Option SizeCb) (total block_size max_size off : ℕ)
    → block_size ≤ max_size
    → want_at cb total block_size max_size off ≤ max_size
unfolding want_at
want_at-fits none total block_size max_size off k = ground arith
want_at-fits (some cb) total block_size max_size off k = ground arith

probe-least :
    (cb : SizeCb) (total block_size fuel off best : ℕ)
    → block_size ≤ best
    → block_size ≤ buffer_cap
    → block_size ≤ probe cb total block_size fuel off best
unfolding probe
probe-least cb total block_size zero off best h k = h
probe-least cb total block_size (suc fuel) off best h k = ground (
  arith,
  probe-least cb total block_size fuel (off + block_size) (max best (cb off total block_size))
      (omega arith) k,
)

pub max_buffer-least :
    (cb : Option SizeCb) (total block_size : ℕ)
    → block_size ≤ buffer_cap
    → block_size ≤ max_buffer cb total block_size
unfolding max_buffer
max_buffer-least none total block_size h = omega arith
max_buffer-least (some cb) total block_size h =
    probe-least cb total block_size total 0 block_size (omega arith) h

pub pread_in :
    (content : ℕ → ℕ) (off n : ℕ) (buf : ℕ → ℕ) (k : ℕ)
    → k < n
    → pread content off n buf k ≡ content (off + k)
unfolding pread
pread_in content off n buf k h = ground arith

pub pwrite_in :
    (buf : ℕ → ℕ) (off n : ℕ) (f : File) (i : ℕ)
    → off ≤ i
    → i < off + n
    → (pwrite buf off n f).bytes i ≡ buf (i - off)
unfolding pwrite
pwrite_in buf off n f i h k = ground arith

pub pwrite_out :
    (buf : ℕ → ℕ) (off n : ℕ) (f : File) (i : ℕ)
    → (i < off) ⊎ (off + n ≤ i)
    → (pwrite buf off n f).bytes i ≡ f.bytes i
unfolding pwrite
pwrite_out buf off n f i (inl h) = ground arith
pwrite_out buf off n f i (inr h) = ground arith

pub pwrite-size :
    (buf : ℕ → ℕ) (off n : ℕ) (f : File) (limit : ℕ)
    → f.size ≤ limit
    → off + n ≤ limit
    → (pwrite buf off n f).size ≤ limit
unfolding pwrite
pwrite-size buf off n f limit h k = ground arith

-- Offset i is inside a block, or outside it.
abbrev pub Out : ℕ → Entry → Type 0
Out i e = (i < e.off) ⊎ (e.off + e.len ≤ i)

pub block-cases : (i off n : ℕ) → ((off ≤ i) × (i < off + n)) ⊎ ((i < off) ⊎ (off + n ≤ i))
block-cases i off n = elim (Bool-cases (ltb i off)) [
  | inl h ↦ inr (inl (ground arith))
  | inr h ↦ elim (Bool-cases (ltb i (off + n))) [
    | inl k ↦ inl (ground arith, ground arith)
    | inr k ↦ inr (inr (ground arith))
  ]
]

pub pwrite_reaches :
    (buf : ℕ → ℕ) (off n : ℕ) (f : File) (i : ℕ)
    → off ≤ i
    → i < off + n
    → i < (pwrite buf off n f).size
unfolding pwrite
pwrite_reaches buf off n f i h k = ground arith

pub pwrite_grows : (buf : ℕ → ℕ) (off n : ℕ) (f : File) → f.size ≤ (pwrite buf off n f).size
unfolding pwrite
pwrite_grows buf off n f = ground arith
