-- ===== src/Pipeline/Filling.antt =====
-- csrc/uring_wrap.c, the loop of `uring_write_newfile_dynamic`: what holds between its steps.
use pyuring.Prelude.{
  ◌/◌, ℕ, suc, ◌+◌, ◌-◌, ◌<◌, ◌≤◌, ◌≡◌, refl, ◌⊎◌, inl, inr, List, [], ◌∷◌, length, arith,
  length-append,
}
use native.Mathlib.Nat.{mod-lt}
use pyuring.Pipeline.State.{word, pack_ud, Entry, entry, op_write, pwrite}
use pyuring.Pipeline.Blocks.{
  All, All-append, All-append_inv, All-map, total, total-append, Out, block-cases, pwrite_in,
  pwrite_out, pwrite-size, want_at-pos, want_at-within, want_at-fits, pwrite_reaches, pwrite_grows,
}
use pyuring.Pipeline.Newfile.{WriteJob, Writing, pattern, write_want, slot_of, queue_write}

pub record Sound (job : WriteJob) : Type 0 where
  pub queue : 0 < job.call.qd
  pub queue_word : job.call.qd < word
  pub block : 0 < job.call.block_size
  pub room : job.call.block_size ≤ job.max_buffer_size

-- 'A' to 'Z'.
abbrev pub Letter : ℕ → Type 0
Letter x = (65 ≤ x) × (x ≤ 90)

pattern-Letter : (i k : ℕ) → Letter (pattern i k)
unfolding pattern
pattern-Letter i k = (omega arith, omega arith)

-- A queued write: its slot exists, and its block lies below the limit and fits the buffer.
pub record Queued (job : WriteJob) (limit : ℕ) (e : Entry) : Type 0 where
  pub tag : e.user_data ≡ pack_ud 1 e.slot
  pub slot_lt : e.slot < job.call.qd
  pub below : e.off + e.len ≤ limit
  pub full : 0 < e.len
  pub fits : e.len ≤ job.max_buffer_size

-- The entries are counted, are at most `qd`, and with what is written and what was lost make up the
-- bytes claimed; the file holds letters or, where nothing was written, zero.
pub record Filled (job : WriteJob) (lost : ℕ) (t : Writing) : Type 0 where
  pub entries : All (Queued job t.next_off) t.ring
  pub count : t.inflight + t.pending ≡ length t.ring
  pub room : t.inflight + t.pending ≤ job.call.qd
  pub sum : t.written + total t.ring + lost ≡ t.next_off
  pub within : t.next_off ≤ job.total_bytes
  pub clean : (i : ℕ) → (t.dst.bytes i ≡ 0) ⊎ Letter (t.dst.bytes i)
  pub extent : t.dst.size ≤ t.next_off
  pub covered :
      lost ≡ 0
      → (i : ℕ) → i < t.next_off
      → All (Out i) t.ring
      → Letter (t.dst.bytes i) × (i < t.dst.size)

module _ (job : WriteJob) (sound : Sound job) where
  module _ (off : ℕ) (more : off < job.total_bytes) where
    pub write_want-pos : 0 < write_want job off
    unfolding write_want
    write_want-pos =
        want_at-pos job.call.size_cb job.total_bytes job.call.block_size job.max_buffer_size off
          sound.block more

    pub write_want-within : off + write_want job off ≤ job.total_bytes
    unfolding write_want
    write_want-within =
        want_at-within job.call.size_cb job.total_bytes job.call.block_size job.max_buffer_size off
          more

    write_want-fits : write_want job off ≤ job.max_buffer_size
    unfolding write_want
    write_want-fits =
        want_at-fits job.call.size_cb job.total_bytes job.call.block_size job.max_buffer_size off
          sound.room

  slot_of_lt : (off : ℕ) → slot_of job off < job.call.qd
  slot_of_lt off = mod-lt (off / job.call.block_size) sound.queue

  pub Filled-queue :
      (lost : ℕ) (t : Writing)
      → t.next_off < job.total_bytes
      → t.inflight + t.pending < job.call.qd
      → Filled job lost t
      → Filled job lost (queue_write job t)
  Filled-queue lost t more free f =
      let new = entry op_write (slot_of job t.next_off) t.next_off (write_want job t.next_off) in
      record {
        entries =
            All-append (Queued job (t.next_off + write_want job t.next_off)) t.ring (new ∷ [])
              (All-map
                (λ e q. record {
                  tag = q.tag;
                  slot_lt = q.slot_lt;
                  below = omega (arith, q.below);
                  full = q.full;
                  fits = q.fits;
                })
                t.ring f.entries)
              (
                record {
                  tag = refl;
                  slot_lt = slot_of_lt t.next_off;
                  below = omega arith;
                  full = write_want-pos t.next_off more;
                  fits = write_want-fits t.next_off more;
                },
                tt,
              );
        count = omega (arith, f.count, length-append t.ring (new ∷ []));
        room = omega (arith, free);
        sum = omega (arith, f.sum, total-append t.ring new);
        within = write_want-within t.next_off more;
        clean = f.clean;
        extent = omega (arith, f.extent);
        covered = λ z i h outs.
            let (out, last) = All-append_inv (Out i) t.ring (new ∷ []) outs in
            f.covered z i (ground (arith, last.0, h)) out;
      }

  module _ (lost n : ℕ) (t : Writing) (e : Entry) (rest : List Entry) where
    module _ (f : Filled job lost t) (quiet : t.pending ≡ 0) (q : Queued job t.next_off e)
        (qs : All (Queued job t.next_off) rest) (sum : total t.ring ≡ e.len + total rest)
        (count : length t.ring ≡ suc (length rest)) (le : n ≤ e.len)
        (outs : (i : ℕ) → Out i e → All (Out i) rest → All (Out i) t.ring) where
      wrote_clean :
          (i : ℕ)
          → ((pwrite (pattern e.slot) e.off n t.dst).bytes i ≡ 0)
            ⊎ Letter ((pwrite (pattern e.slot) e.off n t.dst).bytes i)
      wrote_clean i = elim (block-cases i e.off n) [
        | inl h ↦ inr (
            rw (pwrite_in (pattern e.slot) e.off n t.dst i h.0 h.1)
              (pattern-Letter e.slot (i - e.off)))
        | inr h ↦ rw (pwrite_out (pattern e.slot) e.off n t.dst i h) (f.clean i)
      ]

      wrote_covered :
          lost ≡ 0
          → n ≡ e.len
          → (i : ℕ) → i < t.next_off
          → All (Out i) rest
          → Letter ((pwrite (pattern e.slot) e.off n t.dst).bytes i)
            × (i < (pwrite (pattern e.slot) e.off n t.dst).size)
      wrote_covered z whole i h a = elim (block-cases i e.off n) [
        | inl k ↦ (
          rw (pwrite_in (pattern e.slot) e.off n t.dst i k.0 k.1)
              (pattern-Letter e.slot (i - e.off)),
          pwrite_reaches (pattern e.slot) e.off n t.dst i k.0 k.1,
        )
        | inr k ↦
            let before = f.covered z i h (outs i (ground arith) a) in
            (
              rw (pwrite_out (pattern e.slot) e.off n t.dst i k) before.0,
              omega (arith, before.1, pwrite_grows (pattern e.slot) e.off n t.dst),
            )
      ]

      pub Filled-wrote : Filled job (lost + (e.len - n)) (record t {
        ring = rest;
        dst = pwrite (pattern e.slot) e.off n t.dst;
        written = t.written + n;
        inflight = t.inflight - 1;
      })
      Filled-wrote = record {
        entries = qs;
        count = omega (arith, f.count, count, quiet);
        room = omega (arith, f.room);
        sum = omega (arith, f.sum, sum, le);
        within = f.within;
        clean = wrote_clean;
        extent =
            pwrite-size (pattern e.slot) e.off n t.dst t.next_off f.extent
              (omega (arith, q.below, le));
        covered = λ z. wrote_covered (omega (arith, z)) (omega (arith, z, le));
      }
