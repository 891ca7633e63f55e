-- ===== src/Pipeline/Invariant.antt =====
-- csrc/uring_wrap.c, the loop of `uring_copy_path_dynamic`: what holds between two of its turns.
use pyuring.Prelude.{
  ap, ◌∙◌, ℕ, suc, ◌+◌, ◌-◌, ◌<◌, ◌≤◌, ◌≡◌, ◌≢◌, true, ◌⊎◌, inl, inr, List, [], ◌∷◌, length, arith,
}
use pyuring.Pipeline.State.{
  pwrite, word, pack_ud, Entry, op_read, op_write, op_code, put, CopySlot, Turn, moved,
}
use pyuring.Pipeline.Copy.{Job, Copy, perform}
use pyuring.Pipeline.Blocks.{
  pwrite_reaches, pwrite_grows, pwrite_out, pwrite_in, block-cases, pwrite-size, pread_in, put_self,
  Out, total, Distinct, Apart, put_ne, All,
}

-- The arguments are `unsigned`, not 0, and a block fits a buffer.
pub record Sane (job : Job) : Type 0 where
  pub queue : 0 < job.call.qd
  pub queue_word : job.call.qd < word
  pub block : 0 < job.call.block_size
  pub room : job.call.block_size ≤ job.max_buffer_size

-- An entry and its slot agree, and its block lies below the limit and fits the buffer.
pub record Seated (job : Job) (slots : ℕ → CopySlot) (limit : ℕ) (e : Entry) : Type 0 where
  pub tag : e.user_data ≡ pack_ud (op_code e.opcode) e.slot
  pub slot_lt : e.slot < job.call.qd
  pub active : (slots e.slot).active ≡ true
  pub start : (slots e.slot).off ≡ e.off
  pub below : e.off + e.len ≤ limit
  pub full : 0 < e.len
  pub fits : e.len ≤ job.max_buffer_size

-- A write has the bytes of the source to write.
pub record Live (job : Job) (slots : ℕ → CopySlot) (limit : ℕ) (e : Entry) : Type 0 where
  pub seated : Seated job slots limit e
  pub filled :
      e.opcode ≡ op_write → (k : ℕ) → k < e.len → (slots e.slot).buf k ≡ job.content (e.off + k)

-- Between two turns, when `lost` bytes have been asked for and were not moved: entries have slots of
-- their own, the bytes claimed so far are copied, in flight or lost, and no byte of the destination
-- is wrong. While nothing is lost, whatever is claimed and not in flight is in the destination, and
-- every slot works until the last byte is claimed.
pub record Inv (job : Job) (lost : ℕ) (t : Copy) : Type 0 where
  pub entries : All (Live job t.slots t.next_off) t.pending
  pub distinct : Distinct t.pending
  pub count : t.inflight ≡ length t.pending
  pub sum : t.copied + total t.pending + lost ≡ t.next_off
  pub within : t.next_off ≤ job.file_size
  pub clean : (i : ℕ) → (t.dst.bytes i ≡ 0) ⊎ (t.dst.bytes i ≡ job.content i)
  pub extent : t.dst.size ≤ t.next_off
  pub covered :
      lost ≡ 0
      → (i : ℕ) → i < t.next_off
      → All (Out i) t.pending
      → (t.dst.bytes i ≡ job.content i) × (i < t.dst.size)
  pub busy : lost ≡ 0 → t.next_off < job.file_size → t.inflight ≡ job.call.qd

-- The same when an entry has been taken that moved n bytes.
pub record After (job : Job) (lost n : ℕ) (e : Entry) (t : Copy) : Type 0 where
  pub head : Seated job t.slots t.next_off e
  pub entries : All (Live job t.slots t.next_off) t.pending
  pub apart : All (Apart e) t.pending
  pub distinct : Distinct t.pending
  pub count : t.inflight ≡ length t.pending
  pub sum : t.copied + (e.len + total t.pending) + lost ≡ t.next_off
  pub moved_le : n ≤ e.len
  pub within : t.next_off ≤ job.file_size
  pub clean : (i : ℕ) → (t.dst.bytes i ≡ 0) ⊎ (t.dst.bytes i ≡ job.content i)
  pub extent : t.dst.size ≤ t.next_off
  pub filled :
      e.opcode ≡ op_read → (k : ℕ) → k < n → (t.slots e.slot).buf k ≡ job.content (e.off + k)
  pub covered :
      lost ≡ 0
      → n ≡ e.len
      → (i : ℕ) → i < t.next_off
      → (e.opcode ≡ op_read → Out i e)
      → All (Out i) t.pending
      → (t.dst.bytes i ≡ job.content i) × (i < t.dst.size)
  pub busy : lost ≡ 0 → t.next_off < job.file_size → suc t.inflight ≡ job.call.qd

Seated-put :
    (job : Job) (slots : ℕ → CopySlot) (limit next : ℕ) (v : CopySlot) (e : Entry)
    → v.active ≡ true
    → v.off ≡ e.off
    → limit ≤ next
    → Seated job slots limit e
    → Seated job (put slots e.slot v) next e
Seated-put job slots limit next v e a o h l = record {
  tag = l.tag;
  slot_lt = l.slot_lt;
  active = rw (put_self slots e.slot v) a;
  start = rw (put_self slots e.slot v) o;
  below = omega (arith, l.below);
  full = l.full;
  fits = l.fits;
}

Live-put :
    (job : Job) (slots : ℕ → CopySlot) (limit next s : ℕ) (v : CopySlot) (e : Entry)
    → s ≢ e.slot
    → limit ≤ next
    → Live job slots limit e
    → Live job (put slots s v) next e
Live-put job slots limit next s v e ne h l = record {
  seated = record {
    tag = l.seated.tag;
    slot_lt = l.seated.slot_lt;
    active = rw (put_ne slots s e.slot v ne) l.seated.active;
    start = rw (put_ne slots s e.slot v ne) l.seated.start;
    below = omega (arith, l.seated.below);
    full = l.seated.full;
    fits = l.seated.fits;
  };
  filled = λ o k lt. rw (put_ne slots s e.slot v ne) (l.filled o k lt);
}

pub Live-puts :
    (job : Job) (slots : ℕ → CopySlot) (limit next : ℕ) (f : Entry) (v : CopySlot) (es : List Entry)
    → limit ≤ next
    → All (Apart f) es
    → All (Live job slots limit) es
    → All (Live job (put slots f.slot v) next) es
Live-puts job slots limit next f v [] h a l = tt
Live-puts job slots limit next f v (e ∷ es) h a l = (
  Live-put job slots limit next f.slot v e a.0 h l.0,
  Live-puts job slots limit next f v es h a.1 l.1,
)

moved_le_len : (turn : Turn) (e : Entry) → moved turn e ≤ e.len
unfolding moved
moved_le_len turn e = ground arith

module _ (job : Job) (lost n : ℕ) (t : Copy) (e : Entry) (rest : List Entry) where
  module _ (inv : Inv job lost t) (live : Live job t.slots t.next_off e)
      (lives : All (Live job t.slots t.next_off) rest) (apart : All (Apart e) rest)
      (distinct : Distinct rest) (sum : total t.pending ≡ e.len + total rest)
      (count : t.inflight ≡ suc (length rest)) (le : n ≤ e.len)
      (outs : (i : ℕ) → Out i e → All (Out i) rest → All (Out i) t.pending) where
    pub After-read :
        e.opcode ≡ op_read
        → After job lost n e (record (perform op_read job.content e n t) {
          pending = rest;
          inflight = t.inflight - 1;
        })
    unfolding perform
    After-read o = record {
      head =
          Seated-put job t.slots t.next_off t.next_off _ e live.seated.active live.seated.start
            (omega arith) live.seated;
      entries = Live-puts job t.slots t.next_off t.next_off e _ rest (omega arith) apart lives;
      apart = apart;
      distinct = distinct;
      count = omega (arith, count);
      sum = omega (arith, sum, inv.sum);
      moved_le = le;
      within = inv.within;
      clean = inv.clean;
      extent = inv.extent;
      filled = λ o k h. rw (put_self t.slots e.slot _) (pread_in job.content e.off n _ k h);
      covered = λ z q i h w a. inv.covered z i h (outs i (w o) a);
      busy = λ z h. omega (arith, count, inv.busy z h);
    }

    written_clean :
        e.opcode ≡ op_write
        → (i : ℕ)
        → ((pwrite (t.slots e.slot).buf e.off n t.dst).bytes i ≡ 0)
          ⊎ ((pwrite (t.slots e.slot).buf e.off n t.dst).bytes i ≡ job.content i)
    written_clean o i = elim (block-cases i e.off n) [
      | inl h ↦ inr (
          pwrite_in (t.slots e.slot).buf e.off n t.dst i h.0 h.1
          ∙ live.filled o (i - e.off) (omega (arith, h.0, h.1))
          ∙ ap job.content (omega (arith, h.0)))
      | inr h ↦ rw (pwrite_out (t.slots e.slot).buf e.off n t.dst i h) (inv.clean i)
    ]

    written_covered :
        e.opcode ≡ op_write
        → lost ≡ 0
        → n ≡ e.len
        → (i : ℕ) → i < t.next_off
        → All (Out i) rest
        → ((pwrite (t.slots e.slot).buf e.off n t.dst).bytes i ≡ job.content i)
          × (i < (pwrite (t.slots e.slot).buf e.off n t.dst).size)
    written_covered o z q i h a = elim (block-cases i e.off n) [
      | inl k ↦ (
        pwrite_in (t.slots e.slot).buf e.off n t.dst i k.0 k.1
            ∙ live.filled o (i - e.off) (omega (arith, k.0, k.1))
            ∙ ap job.content (omega (arith, k.0)),
        pwrite_reaches (t.slots e.slot).buf e.off n t.dst i k.0 k.1,
      )
      | inr k ↦
          let before = inv.covered z i h (outs i (ground arith) a) in
          (
            pwrite_out (t.slots e.slot).buf e.off n t.dst i k ∙ before.0,
            omega (arith, before.1, pwrite_grows (t.slots e.slot).buf e.off n t.dst),
          )
    ]

    pub After-write :
        e.opcode ≡ op_write
        → After job lost n e (record (perform op_write job.content e n t) {
          pending = rest;
          inflight = t.inflight - 1;
        })
    unfolding perform
    After-write o = record {
      head = live.seated;
      entries = lives;
      apart = apart;
      distinct = distinct;
      count = omega (arith, count);
      sum = omega (arith, sum, inv.sum);
      moved_le = le;
      within = inv.within;
      clean = written_clean o;
      extent =
          pwrite-size (t.slots e.slot).buf e.off n t.dst t.next_off inv.extent
            (omega (arith, live.seated.below));
      filled = λ r. ground arith;
      covered = λ z q i h w a. written_covered o z q i h a;
      busy = λ z h. omega (arith, count, inv.busy z h);
    }
