-- ===== src/Pipeline/Turns.antt =====
-- csrc/uring_wrap.c, the loop of `uring_copy_path_dynamic`: one turn keeps the invariant and has less
-- left to do, or it leaves the loop for a reason that the turn gives.
use pyuring.Prelude.{
  min, ◌∙◌, not, ◌||◌, ap, leb, ltb→lt, ltb, length-append, ℕ, zero, suc, ◌+◌, ◌-◌, ◌*◌, ◌<◌, ◌≤◌,
  ◌≡◌, refl, ◌≢◌, false, ◌⊎◌, inl, inr, [], ◌∷◌, ◌++◌, arith, Bool-cases, ℤ, pos, negsuc,
}
use pyuring.Pipeline.State.{
  ud_op, ud_slot, word, Entry, entry, Opcode, op_read, op_write, op_code, Turn,
}
use pyuring.Pipeline.Copy.{
  dispatch, Job, Copy, want, read_done, write_done, refill, submitted, cancels, queue_read,
  claim_slot, retire,
}
use pyuring.Pipeline.Invariant.{Live, Live-puts, After, Inv, Sane}
use pyuring.Pipeline.Blocks.{
  ud_op-pack_ud, ud_slot-pack_ud, want_at-fits, want_at-within, want_at-pos, put_self, Out,
  All-append_inv, total-append, Distinct-append, All-append,
}
use pyuring.Pipeline.Effort.{
  cancelled, effort-append, no_entry, effort, weight, transfer_failed, submit_failed, Correct,
  turns_left, Good,
}

pub Inv-unseen :
    (job : Job) (lost k : ℕ) (t : Copy) → Inv job lost t → Inv job lost (record t { unseen = k })
Inv-unseen job lost k t inv = record {
  entries = inv.entries;
  distinct = inv.distinct;
  count = inv.count;
  sum = inv.sum;
  within = inv.within;
  clean = inv.clean;
  extent = inv.extent;
  covered = inv.covered;
  busy = inv.busy;
}

submitted-Good :
    (job : Job) (lost : ℕ) (turn : Turn) (bound : ℕ) (t : Copy) (r : ℤ)
    → r ≡ turn.submit
    → Inv job lost t
    → turns_left job t < bound
    → Correct job t
    → Good job lost turn bound (submitted turn.left_queued r t)
unfolding submitted
submitted-Good job lost turn bound t (pos n) e inv less right =
    (Inv-unseen job lost (min turn.left_queued (suc t.unseen)) t inv, less)
submitted-Good job lost turn bound t (negsuc n) e inv less right = (refl, submit_failed e, right)

pub want-pos : (job : Job) → Sane job → (off : ℕ) → off < job.file_size → 0 < want job off
unfolding want
want-pos job sane off h =
    want_at-pos job.call.size_cb job.file_size job.call.block_size job.max_buffer_size off
      sane.block h

pub want-fits : (job : Job) → Sane job → (off : ℕ) → want job off ≤ job.max_buffer_size
unfolding want
want-fits job sane off =
    want_at-fits job.call.size_cb job.file_size job.call.block_size job.max_buffer_size off
      sane.room

pub want-within : (job : Job) (off : ℕ) → off < job.file_size → off + want job off ≤ job.file_size
unfolding want
want-within job off h =
    want_at-within job.call.size_cb job.file_size job.call.block_size job.max_buffer_size off h

module _ (job : Job) (sane : Sane job) (lost : ℕ) (turn : Turn) (e : Entry) where
  retire-Inv : (t : Copy) → After job lost 0 e t → Inv job (lost + (e.len - 0)) (retire e.slot t)
  retire-Inv t a = record {
    entries =
        Live-puts job t.slots t.next_off t.next_off e _ t.pending (omega arith) a.apart a.entries;
    distinct = a.distinct;
    count = a.count;
    sum = omega (arith, a.sum);
    within = a.within;
    clean = a.clean;
    extent = a.extent;
    covered = λ z. absurd (omega (arith, a.head.full, z));
    busy = λ z. absurd (omega (arith, a.head.full, z));
  }

  read_done-Inv :
      (n : ℕ) (t : Copy)
      → After job lost (suc n) e t
      → e.opcode ≡ op_read
      → Inv job (lost + (e.len - suc n)) (record t {
        pending = t.pending ++ entry op_write e.slot (t.slots e.slot).off (suc n) ∷ [];
        inflight = suc t.inflight;
      })
  read_done-Inv n t a o =
      let new = entry op_write e.slot (t.slots e.slot).off (suc n) in
      record {
        entries = All-append (Live job t.slots t.next_off) t.pending (new ∷ []) a.entries (
          record {
            seated = record {
              tag = refl;
              slot_lt = a.head.slot_lt;
              active = a.head.active;
              start = refl;
              below = omega (arith, a.head.below, a.head.start, a.moved_le);
              full = omega arith;
              fits = omega (arith, a.head.fits, a.moved_le);
            };
            filled = λ w k h. rw a.head.start (a.filled o k h);
          },
          tt,
        );
        distinct = Distinct-append t.pending new a.apart a.distinct;
        count = omega (arith, a.count, length-append t.pending (new ∷ []));
        sum = omega (arith, a.sum, a.moved_le, total-append t.pending new);
        within = a.within;
        clean = a.clean;
        extent = a.extent;
        covered = λ z i h outs.
            let (out, last) = All-append_inv (Out i) t.pending (new ∷ []) outs in
            a.covered (omega (arith, z)) (omega (arith, z, a.moved_le)) i h
              (λ w. ground (arith, a.head.start, last.0, a.moved_le, z)) out;
        busy = λ z h. a.busy (omega (arith, z)) h;
      }

  After-Correct : (n : ℕ) (t : Copy) → After job lost n e t → Correct job t
  After-Correct n t a = record {
    clean = a.clean;
    extent = omega (arith, a.extent, a.within);
    count = omega (arith, a.sum, a.within);
  }

  read_done-Good :
      (n : ℕ) (t : Copy)
      → After job lost n e t
      → e.opcode ≡ op_read
      → Good job
          (lost + (e.len - n))
          turn
          (2 * (job.file_size - t.next_off) + (2 + effort t.pending))
          (read_done turn e.slot n t)
  unfolding read_done
  read_done-Good zero t a o = (retire-Inv t a, omega arith)
  read_done-Good (suc n) t a o = elim (Bool-cases turn.sqe) [
    | inl q ↦ simp q (
        submitted-Good job (lost + (e.len - suc n)) turn
          (2 * (job.file_size - t.next_off) + (2 + effort t.pending)) _ turn.submit refl
          (read_done-Inv n t a o)
          (omega
            (arith, effort-append t.pending (entry op_write e.slot (t.slots e.slot).off (suc n))))
          (record {
            clean = a.clean;
            extent = (After-Correct (suc n) t a).extent;
            count = (After-Correct (suc n) t a).count;
          }))
    | inr q ↦ simp q (refl, no_entry q refl, After-Correct (suc n) t a)
  ]

  abbrev count_in : ℕ → Copy → Copy
  count_in n t = record t { copied = t.copied + n }

  module _ (n : ℕ) (t : Copy) (a : After job lost n e t) where
    counted-Correct : Correct job (count_in n t)
    counted-Correct = record {
      clean = a.clean;
      extent = (After-Correct n t a).extent;
      count = omega (arith, a.sum, a.within, a.moved_le);
    }

    module _ (w : e.opcode ≡ op_write) where
      read_next-Inv :
          t.next_off < job.file_size
          → Inv job
              (lost + (e.len - n))
              (queue_read job e.slot (claim_slot job e.slot (count_in n t)))
      read_next-Inv more =
          let new = entry op_read e.slot t.next_off (want job t.next_off) in
          record {
            entries =
                All-append (Live job _ (t.next_off + want job t.next_off)) t.pending (new ∷ [])
                  (Live-puts job t.slots t.next_off (t.next_off + want job t.next_off) e _ t.pending
                    (omega arith) a.apart a.entries)
                  (
                    record {
                      seated = record {
                        tag = refl;
                        slot_lt = a.head.slot_lt;
                        active = rw (put_self t.slots e.slot _) a.head.active;
                        start = rw (put_self t.slots e.slot _) refl;
                        below = omega arith;
                        full = want-pos job sane t.next_off more;
                        fits = want-fits job sane t.next_off;
                      };
                      filled = λ q k h. ground arith;
                    },
                    tt,
                  );
            distinct = Distinct-append t.pending new a.apart a.distinct;
            count = omega (arith, a.count, length-append t.pending (new ∷ []));
            sum = omega (arith, a.sum, a.moved_le, total-append t.pending new);
            within = want-within job t.next_off more;
            clean = a.clean;
            extent = omega (arith, a.extent);
            covered = λ z i h outs.
                let (out, last) = All-append_inv (Out i) t.pending (new ∷ []) outs in
                a.covered (omega (arith, z)) (omega (arith, z, a.moved_le)) i
                  (ground (arith, last.0, h)) (λ q. ground (arith, q, w)) out;
            busy = λ z h. a.busy (omega (arith, z)) (omega (arith, h));
          }

      last-Inv :
          job.file_size ≤ t.next_off → Inv job (lost + (e.len - n)) (retire e.slot (count_in n t))
      last-Inv none_left = record {
        entries =
            Live-puts job t.slots t.next_off t.next_off e _ t.pending (omega arith) a.apart
              a.entries;
        distinct = a.distinct;
        count = a.count;
        sum = omega (arith, a.sum, a.moved_le);
        within = a.within;
        clean = a.clean;
        extent = a.extent;
        covered = λ z i h outs.
            a.covered (omega (arith, z)) (omega (arith, z, a.moved_le)) i h
              (λ q. ground (arith, q, w)) outs;
        busy = λ z h. absurd (omega (arith, h, none_left));
      }

      refill-Good :
          Good job
            (lost + (e.len - n))
            turn
            (2 * (job.file_size - t.next_off) + (1 + effort t.pending))
            (refill job turn e.slot (count_in n t))
      unfolding refill
      refill-Good = elim (Bool-cases (ltb t.next_off job.file_size)) [
        | inr h ↦ simp h (last-Inv (ground arith), omega arith)
        | inl h ↦ elim (Bool-cases turn.sqe) [
          | inr q ↦
              simp (h, q)
                (
                  refl,
                  no_entry q refl,
                  record {
                    clean = counted-Correct.clean;
                    extent = counted-Correct.extent;
                    count = counted-Correct.count;
                  },
                )
          | inl q ↦
              simp (h, q)
                (submitted-Good job (lost + (e.len - n)) turn
                  (2 * (job.file_size - t.next_off) + (1 + effort t.pending)) _ turn.submit refl
                  (read_next-Inv (ltb→lt t.next_off job.file_size h))
                  (omega (
                    arith,
                    effort-append t.pending (entry op_read e.slot t.next_off (want job t.next_off)),
                    want-pos job sane t.next_off (ltb→lt t.next_off job.file_size h),
                    want-within job t.next_off (ltb→lt t.next_off job.file_size h),
                  ))
                  (record {
                    clean = counted-Correct.clean;
                    extent = counted-Correct.extent;
                    count = counted-Correct.count;
                  }))
        ]
      ]

      write_done-Good :
          Good job
            (lost + (e.len - n))
            turn
            (2 * (job.file_size - t.next_off) + (1 + effort t.pending))
            (write_done job turn e.slot n t)
      unfolding write_done
      write_done-Good = elim (Bool-cases (cancels job (t.copied + n))) [
        | inl c ↦ simp c (refl, cancelled c refl, counted-Correct)
        | inr c ↦ simp c refill-Good
      ]

op_code_lt : (o : Opcode) → op_code o < word
op_code_lt op_read = omega arith
op_code_lt op_write = omega arith

pub Opcode-cases : (o : Opcode) → (o ≡ op_read) ⊎ (o ≡ op_write)
Opcode-cases op_read = inl refl
Opcode-cases op_write = inr refl

module _ (job : Job) (lost n : ℕ) (turn : Turn) (e : Entry) (t : Copy) where
  -- The slot of the completion is in range and active: the branch of `-EIO` is not taken.
  module _ (a : After job lost n e t) (sane : Sane job) where
    seated_slot : ud_slot e.user_data ≡ e.slot
    seated_slot =
        ap ud_slot a.head.tag
        ∙ ud_slot-pack_ud (op_code e.opcode) e.slot (omega (arith, a.head.slot_lt, sane.queue_word))

    seated_op : ud_op e.user_data ≡ op_code e.opcode
    seated_op = ap ud_op a.head.tag ∙ ud_op-pack_ud (op_code e.opcode) e.slot (op_code_lt e.opcode)

    no_eio : (leb job.call.qd e.slot || not (t.slots e.slot).active) ≡ false
    no_eio = ground (arith, a.head.slot_lt, a.head.active)

    pub dispatch-pos :
        Good job
          (lost + (e.len - n))
          turn
          (2 * (job.file_size - t.next_off) + (weight e.opcode + effort t.pending))
          (dispatch job turn e.user_data (pos n) t)
    unfolding dispatch
    dispatch-pos = elim (Opcode-cases e.opcode) [
      | inl w ↦
          simp (seated_slot, no_eio, seated_op, w) (read_done-Good job sane lost turn e n t a w)
      | inr w ↦
          simp (seated_slot, no_eio, seated_op, w) (write_done-Good job sane lost turn e n t a w)
    ]

    pub dispatch-neg :
        (after bound : ℕ)
        → turn.errno ≢ 0
        → Good job after turn bound (dispatch job turn e.user_data (negsuc (turn.errno - 1)) t)
    unfolding dispatch
    dispatch-neg after bound h =
        simp (seated_slot, no_eio)
          (refl, transfer_failed h refl, After-Correct job sane lost turn e n t a)
