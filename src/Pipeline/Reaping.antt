-- ===== src/Pipeline/Reaping.antt =====
-- csrc/uring_wrap.c, the loop of `uring_write_manyfiles`: its completions, its turns and its end.
use pyuring.Prelude.{
  leb, ◌∙◌, ◌||◌, not, ap, sym, ℕ, zero, suc, ◌+◌, ◌-◌, ◌<◌, ◌≤◌, ◌≡◌, refl, true, false, inl, inr,
  List, [], ◌∷◌, length, arith, Bool-cases, ◌==◌, is_neg,
}
use mathlib.Core.Path.{ap, sym, subst}
use pyuring.CApi.{ManyCall}
use pyuring.Pipeline.State.{word, ud_op, ud_slot, File, pwrite, taken}
use pyuring.Pipeline.Blocks.{
  ud_op-pack_ud, All-taken_inv, ud_slot-pack_ud, length-taken, All-taken, pwrite_grows, pwrite_out,
  pwrite_reaches, pwrite-size, pwrite_in, block-cases, All,
}
use pyuring.Pipeline.Newfile.{Done, write_answer, write_moved}
use pyuring.Pipeline.Stages.{moved_fine, moved_le}
use pyuring.Pipeline.Manyfiles
use pyuring.Pipeline.Manyfiles.{
  store_block, ManyTurn, reap_batch, many_then, reap_block, settle_block, reap_blocks, goes_out,
  assign, small_pattern, breaks, goes_on, Many, ManyStage, FileEntry,
}
use pyuring.Pipeline.Spread.{
  small_pattern-Small, assign-cases, SpreadOf, Small, Beside, left_to_do, Assigned, total_blocks,
  Spread,
}
use Manyfiles.{hangs}

total_blocks-taken :
    (i : ℕ) (e : FileEntry) (es : List FileEntry)
    → e.block.len + total_blocks es ≡ (taken i e es).0.block.len + total_blocks (taken i e es).1
unfolding taken
total_blocks-taken i e [] = refl
total_blocks-taken zero e (f ∷ es) = refl
total_blocks-taken (suc i) e (f ∷ es) = omega (arith, total_blocks-taken i f es)

-- A step goes on with at most n to do, or leaves the loop; it never waits for nothing.
abbrev pub Reaps : ManyCall → ℕ → ManyStage → Type 0
Reaps call n (goes_on t) = (after : ℕ) × (Spread call after t × (left_to_do call t ≤ n))
Reaps call n (breaks t) = (after : ℕ) × (Spread call after t × (t.inflight ≡ 0))
Reaps call n (goes_out r t) = is_neg r ≡ true
Reaps call n hangs = ⊥

module _ (call : ManyCall) (qd_word : call.qd < word) (lost n : ℕ) (t : Many) (d : Done)
    (e : FileEntry) (rest : List FileEntry) where
  module _ (inv : Spread call lost t) (a : Assigned call t.file_off e)
      (entries : All (Assigned call t.file_off) rest)
      (sum : total_blocks t.ring ≡ e.block.len + total_blocks rest)
      (count : length t.ring ≡ suc (length rest))
      (outs : (f i : ℕ) → Beside f i e → All (Beside f i) rest → All (Beside f i) t.ring) where
    abbrev got : ℕ
    got = write_moved d e.block

    abbrev stored : File
    stored = pwrite (small_pattern e.block.slot) e.block.off got (t.files e.file)

    stored_extent : (f : ℕ) → (assign t.files e.file stored f).size ≤ t.file_off f
    stored_extent f = elim (assign-cases t.files e.file stored f) [
      | inl h ↦
          rw (h.1, sym h.0)
            (pwrite-size (small_pattern e.block.slot) e.block.off got (t.files e.file)
              (t.file_off e.file) (inv.extent e.file) (omega (arith, a.below, moved_le d e.block)))
      | inr h ↦ rw h.1 (inv.extent f)
    ]

    stored_here :
        lost ≡ 0
        → got ≡ e.block.len
        → (i : ℕ) → i < t.file_off e.file
        → All (Beside e.file i) rest
        → Small (stored.bytes i) × (i < stored.size)
    stored_here z whole i h out = elim (block-cases i e.block.off got) [
      | inl k ↦ (
        rw (pwrite_in (small_pattern e.block.slot) e.block.off got (t.files e.file) i k.0 k.1)
            (small_pattern-Small e.block.slot (i - e.block.off)),
        pwrite_reaches (small_pattern e.block.slot) e.block.off got (t.files e.file) i k.0 k.1,
      )
      | inr k ↦
          let before =
            inv.covered z e.file i h (outs e.file i (inr (ground (arith, k, whole))) out) in
          (
            rw (pwrite_out (small_pattern e.block.slot) e.block.off got (t.files e.file) i k)
                before.0,
            omega (
              arith,
              before.1,
              pwrite_grows (small_pattern e.block.slot) e.block.off got (t.files e.file),
            ),
          )
    ]

    Spread-stored :
        SpreadOf call
          (lost + (e.block.len - got))
          t.file_off
          (e.block.slot ∷ t.free_slots)
          (t.inflight - 1)
          (t.written + got)
          rest
          (assign t.files e.file stored)
    Spread-stored = record {
      entries = entries;
      slots = (a.slot_lt, inv.slots);
      count = omega (arith, inv.count, count);
      sum = omega (arith, inv.sum, sum, moved_le d e.block);
      within = inv.within;
      extent = stored_extent;
      covered = λ z f i h out. elim (assign-cases t.files e.file stored f) [
        | inl k ↦ rw k.1 (
            stored_here (omega (arith, z)) (omega (arith, z, moved_le d e.block)) i (rw k.0 h)
              (subst (λ g. All (Beside g i) rest) (sym k.0) out))
        | inr k ↦ rw k.1 (inv.covered (omega (arith, z)) f i h (outs f i (inl k.0) out))
      ];
    }

    checked :
        (not (ud_op e.block.user_data == 1) || leb call.qd (ud_slot e.block.user_data)) ≡ false
    checked =
        simp
          (
            a.tag,
            ud_op-pack_ud 1 e.block.slot (omega arith),
            ud_slot-pack_ud 1 e.block.slot (omega (arith, a.slot_lt, qd_word)),
          )
          (ground (arith, a.slot_lt))

    same_slot : ud_slot e.block.user_data ≡ e.block.slot
    same_slot =
        ap ud_slot a.tag ∙ ud_slot-pack_ud 1 e.block.slot (omega (arith, a.slot_lt, qd_word))

    settle_block-Reaps :
        left_to_do call t ≤ suc n
        → Reaps call n
            (settle_block call e.block.user_data (write_answer d e.block) (store_block d e rest t))
    unfolding settle_block write_answer
    settle_block-Reaps le = elim (Bool-cases (d.errno == 0)) [
      | inr b ↦ simp (b, checked) refl
      | inl b ↦
          simp (b, checked)
            (simp same_slot (
              lost + (e.block.len - got),
              (
                simp (moved_fine d e.block b) (simp (moved_fine d e.block b) at Spread-stored),
                omega (arith, le, count),
              ),
            ))
    ]

module _ (call : ManyCall) (qd_word : call.qd < word) where
  reap_block-Reaps :
      (lost n : ℕ) (d : Done) (es : List FileEntry) (t : Many)
      → es ≡ t.ring
      → Spread call lost t
      → 0 < t.inflight
      → left_to_do call t ≤ suc n
      → Reaps call n (reap_block call d es t)
  unfolding reap_block
  reap_block-Reaps lost n d [] t q inv h le = absurd (omega (arith, h, inv.count, ap length q))
  reap_block-Reaps lost n d (e ∷ es) t q inv h le =
      let own =
        All-taken (Assigned call t.file_off) d.which e es
          (subst (All (Assigned call t.file_off)) (sym q) inv.entries) in
      settle_block-Reaps call qd_word lost n t d (taken d.which e es).0 (taken d.which e es).1 inv
        own.0 own.1 (sym (ap total_blocks q) ∙ total_blocks-taken d.which e es)
        (omega (arith, ap length q, length-taken d.which e es))
        (λ f i o a. subst (All (Beside f i)) q (All-taken_inv (Beside f i) d.which e es o a)) le

  many_then-Reaps :
      (n m : ℕ) (s : ManyStage) (k : Many → ManyStage)
      → Reaps call n s
      → ((after : ℕ) (t : Many) → Spread call after t → left_to_do call t ≤ n → Reaps call m (k t))
      → Reaps call m (many_then s k)
  unfolding many_then
  many_then-Reaps n m (goes_on t) k (after, (inv, le)) next = next after t inv le
  many_then-Reaps n m (breaks t) k g next = g
  many_then-Reaps n m (goes_out r t) k g next = g
  many_then-Reaps n m hangs k g next = g

  reap_blocks-Reaps :
      (ds : List Done) (lost n : ℕ) (t : Many)
      → Spread call lost t
      → left_to_do call t ≤ n
      → Reaps call n (reap_blocks call ds t)
  unfolding reap_blocks
  reap_blocks-Reaps [] lost n t inv le = (lost, (inv, le))
  reap_blocks-Reaps (d ∷ ds) lost n t inv le = elim (Bool-cases (t.inflight == 0)) [
    | inl z ↦ simp z (lost, (inv, le))
    | inr z ↦ simp z (
        many_then-Reaps n n _ (reap_blocks call ds)
          (reap_block-Reaps lost n d t.ring t refl inv (ground arith) (omega (arith, le)))
          (λ after u v l. reap_blocks-Reaps ds after n u v l))
  ]

  pub reap_batch-Reaps :
      (turn : ManyTurn) (lost n : ℕ) (t : Many)
      → Spread call lost t
      → left_to_do call t ≤ suc n
      → Reaps call n (reap_batch call turn t)
  unfolding reap_batch reap_blocks
  reap_batch-Reaps turn lost n t inv le = elim (Bool-cases (t.inflight == 0)) [
    | inl z ↦ simp z (lost, (inv, ground arith))
    | inr z ↦ elim (Bool-cases (is_neg turn.wait)) [
      | inl w ↦ simp (z, w) refl
      | inr w ↦
          simp (z, w)
            (many_then-Reaps n n _ (reap_blocks call turn.others)
              (reap_block-Reaps lost n turn.first t.ring t refl inv (ground arith) le)
              (λ after u v l. reap_blocks-Reaps turn.others after n u v l))
    ]
  ]
