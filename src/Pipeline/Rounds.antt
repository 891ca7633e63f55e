-- ===== src/Pipeline/Rounds.antt =====
-- csrc/uring_wrap.c, the loop of `uring_write_manyfiles`: what each step of a turn makes of the files.
use pyuring.Prelude.{
  ltb, leb, ◌%◌, ℕ, zero, suc, ◌+◌, ◌-◌, ◌*◌, ◌<◌, ◌≤◌, inl, inr, List, [], ◌∷◌, length, arith,
  none, some, Bool-cases, length-append, Option,
}
use native.Mathlib.Nat.{mod-lt}
use pyuring.CApi.{ManyCall}
use pyuring.Pipeline.State.{word, entry, op_write}
use pyuring.Pipeline.Blocks.{All}
use pyuring.Pipeline.Manyfiles.{
  enqueue, queue_block, many_want, put_write, per_file_bytes, Many, pick, advance,
}
use pyuring.Pipeline.Spread.{
  many_want-pos, ahead_within, sum_ahead, sum_to-le, ahead, Spread-queue, Spread-skip, sum_to,
  left_to_do, Spread,
}

-- What a search for a block has to come to: with no block nothing is claimed; a block is claimed, to
-- be queued with a slot, or lost.
abbrev Picked : ManyCall → ℕ → ℕ → Option (ℕ × ℕ × ℕ) × Many → Type 0
Picked call lost n (none, u) = Spread call lost u × (left_to_do call u ≤ n)
Picked call lost n (some (f, off, len), u) =
    Spread call (lost + len) u
    × (left_to_do call u ≤ n)
    × ((slot : ℕ) (slots : List ℕ)
        → slot < call.qd
        → All (λ s. s < call.qd) slots
        → Spread call lost (put_write slot slots (f, off, len) u)
          × (left_to_do call (put_write slot slots (f, off, len) u) ≤ n))

module _ (call : ManyCall) (some_files : 0 < call.nfiles) (b : 0 < call.block_size) where
  module _ (lost n : ℕ) (t : Many) (f : ℕ) (lt : f < call.nfiles)
      (more : t.file_off f < per_file_bytes call) (inv : Spread call lost t)
      (le : left_to_do call t ≤ n) where
    bounded :
        sum_to call.nfiles (ahead call lost t f inv lt b more) ≤ per_file_bytes call * call.nfiles
    bounded =
        sum_to-le call.nfiles (per_file_bytes call) _ (ahead_within call lost t f inv lt b more)

    claimed :
        (per_file_bytes call * call.nfiles - sum_to call.nfiles (ahead call lost t f inv lt b more))
          + suc (length t.ring)
        ≤ n
    claimed = omega (
      arith,
      le,
      bounded,
      sum_ahead call lost t f inv lt b more,
      many_want-pos call (t.file_off f) b more,
    )

    advance-Picked :
        Picked call lost n (some (f, t.file_off f, many_want call (t.file_off f)), advance call f t)
    unfolding advance
    advance-Picked =
        elim (Bool-cases
          (leb (per_file_bytes call) (t.file_off f + many_want call (t.file_off f)))) [
            | inl d ↦ simp d (
              Spread-skip call lost t f inv lt b more,
              omega (arith, claimed),
              (λ slot slots h a. (
                Spread-queue call lost t f inv lt b more slot slots h a,
                omega (
                  arith,
                  claimed,
                  length-append t.ring (
                      record {
                        file = f;
                        block = entry op_write slot (t.file_off f) (many_want call (t.file_off f));
                      }
                      ∷ []),
                ),
              )),
            )
            | inr d ↦ simp d (
              Spread-skip call lost t f inv lt b more,
              omega (arith, claimed),
              (λ slot slots h a. (
                Spread-queue call lost t f inv lt b more slot slots h a,
                omega (
                  arith,
                  claimed,
                  length-append t.ring (
                      record {
                        file = f;
                        block = entry op_write slot (t.file_off f) (many_want call (t.file_off f));
                      }
                      ∷ []),
                ),
              )),
            )
          ]

  pick-Picked :
      (tries lost n : ℕ) (t : Many)
      → Spread call lost t
      → left_to_do call t ≤ n
      → Picked call lost n (pick call tries t)
  unfolding pick
  pick-Picked zero lost n t inv le = (inv, le)
  pick-Picked (suc tries) lost n t inv le = elim (Bool-cases (t.file_done (t.rr % call.nfiles))) [
    | inl d ↦ simp d (pick-Picked tries lost n _ inv le)
    | inr d ↦ elim (Bool-cases (leb (per_file_bytes call) (t.file_off (t.rr % call.nfiles)))) [
      | inl e ↦ simp (d, e) (pick-Picked tries lost n _ inv le)
      | inr e ↦
          simp (d, e)
            (advance-Picked lost n (record t { rr = suc t.rr % word }) (t.rr % call.nfiles)
              (mod-lt t.rr some_files) (ground (arith, e)) inv le)
    ]
  ]

  -- What queueing leaves: some bytes may be lost, and there is no more to do than before.
  abbrev pub Queues : ℕ → ℕ → ℕ × Many → Type 0
  Queues lost n r =
      (after : ℕ) × (Spread call after r.1 × (left_to_do call r.1 ≤ n) × (lost ≤ after))

  queue_block-Queues :
      (k : ℕ → Many → ℕ × Many) (sqes : ℕ) (free : List ℕ) (r : Option (ℕ × ℕ × ℕ) × Many)
      (t : Many) (lost n : ℕ)
      → All (λ s. s < call.qd) free
      → Spread call lost t
      → left_to_do call t ≤ n
      → Picked call lost n r
      → ((s : ℕ) (u : Many) → Spread call lost u → left_to_do call u ≤ n → Queues lost n (k s u))
      → Queues lost n (queue_block k sqes free r t)
  unfolding queue_block
  queue_block-Queues k sqes [] r t lost n a inv le p next = (lost, (inv, le, omega arith))
  queue_block-Queues k sqes (slot ∷ slots) (none, u) t lost n a inv le p next =
      (lost, (p.0, p.1, omega arith))
  queue_block-Queues k zero (slot ∷ slots) (some (f, off, len), u) t lost n a inv le p next =
      (lost + len, (p.0, p.1, omega arith))
  queue_block-Queues k (suc sqes) (slot ∷ slots) (some (f, off, len), u) t lost n a inv le p next =
      let q = p.2 slot slots a.0 a.1 in next sqes (put_write slot slots (f, off, len) u) q.0 q.1

  pub enqueue-Queues :
      (fuel sqes lost n : ℕ) (t : Many)
      → Spread call lost t
      → left_to_do call t ≤ n
      → Queues lost n (enqueue call fuel sqes t)
  unfolding enqueue
  enqueue-Queues zero sqes lost n t inv le = (lost, (inv, le, omega arith))
  enqueue-Queues (suc fuel) sqes lost n t inv le =
      elim (Bool-cases (ltb t.done_files call.nfiles)) [
        | inr d ↦ simp d (lost, (inv, le, omega arith))
        | inl d ↦ simp d (
            queue_block-Queues (enqueue call fuel) sqes t.free_slots (pick call call.nfiles t) t
              lost n inv.slots inv le (pick-Picked call.nfiles lost n t inv le)
              (λ s u v l. enqueue-Queues fuel s lost n u v l))
      ]
