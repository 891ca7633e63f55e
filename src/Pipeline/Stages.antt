-- ===== src/Pipeline/Stages.antt =====
-- csrc/uring_wrap.c, the loop of `uring_write_newfile_dynamic`: its steps and its turns, each of which
-- has less left to do or gives up.
use pyuring.Prelude.{
  ◌&&◌, sym, ltb, ap, leb, ◌||◌, ◌∙◌, not, ℕ, zero, suc, ◌+◌, ◌-◌, ◌<◌, ◌≤◌, ◌≡◌, refl, true, false,
  ◌⊎◌, inl, inr, List, [], ◌∷◌, length, arith, Bool-cases, ◌==◌, is_neg, length-append,
}
use mathlib.Core.Path.{sym, ap, subst}
use pyuring.Pipeline.State.{ud_op, ud_slot, Entry, entry, op_write, taken}
use pyuring.Pipeline.Blocks.{
  All, All-taken, All-taken_inv, total, total-taken, length-taken, Out, ud_op-pack_ud,
  ud_slot-pack_ud,
}
use pyuring.Pipeline.Newfile.{
  WriteJob, Writing, Done, Stage, go_on, give_up, stuck, write_want, slot_of, queue_write, fill,
  write_cancels, write_answer, write_moved, account, wrote, reap_from, reap_all, and_next, at_work,
}
use pyuring.Pipeline.Filling.{
  write_want-within, write_want-pos, Filled-wrote, Filled-queue, Queued, Filled, Letter, Sound,
}

abbrev pub todo : WriteJob → Writing → ℕ
todo job t = (job.total_bytes - t.next_off) + length t.ring

-- What is true of the file when the function gives up.
pub record Partial (job : WriteJob) (t : Writing) : Type 0 where
  pub clean : (i : ℕ) → (t.dst.bytes i ≡ 0) ⊎ Letter (t.dst.bytes i)
  pub extent : t.dst.size ≤ job.total_bytes
  pub count : t.written ≤ job.total_bytes

-- A step goes on with at most n to do, and when it is `whole` it has lost nothing more; it gives up with
-- an error, and when it is `fine` because the callback asks to stop; it never waits for nothing.
abbrev pub Goes : WriteJob → Type 0 → Type 0 → ℕ → ℕ → Stage → Type 0
Goes job whole fine lost n (go_on t) =
    (after : ℕ) × (Filled job after t × (todo job t ≤ n) × (t.pending ≡ 0) × (whole → after ≡ lost))
Goes job whole fine lost n (give_up r t) =
    (is_neg r ≡ true) × Partial job t × (fine → write_cancels job t.written ≡ true)
Goes job whole fine lost n stuck = ⊥

pub Filled-Partial : (job : WriteJob) (lost : ℕ) (t : Writing) → Filled job lost t → Partial job t
Filled-Partial job lost t f = record {
  clean = f.clean;
  extent = omega (arith, f.extent, f.within);
  count = omega (arith, f.sum, f.within);
}

abbrev pub Fine : Done → Type 0
Fine d = d.errno ≡ 0

abbrev pub Entire : Done → Type 0
Entire d = d.lack ≡ 0

pub moved_fine : (d : Done) (e : Entry) → (d.errno == 0) ≡ true → write_moved d e ≡ e.len - d.lack
unfolding write_moved
moved_fine d e b = simp b refl

pub moved_le : (d : Done) (e : Entry) → write_moved d e ≤ e.len
unfolding write_moved
moved_le d e = ground arith

pub nonzero : (n : ℕ) → 0 < n → (n == 0) ≡ false
nonzero n h = ground arith

module _ (job : WriteJob) (sound : Sound job) where
  Goes-trans :
      (whole fine more ok : Type 0) (lost after n : ℕ) (s : Stage)
      → (whole → after ≡ lost)
      → Goes job more ok after n s
      → Goes job (whole × more) (fine × ok) lost n s
  Goes-trans whole fine more ok lost after n (go_on t) w (last, (f, le, z, v)) =
      (last, (f, le, z, (λ p. v p.1 ∙ w p.0)))
  Goes-trans whole fine more ok lost after n (give_up r t) w g = (g.0, g.1, (λ p. g.2 p.1))
  Goes-trans whole fine more ok lost after n stuck w g = g

  and_next-Goes :
      (whole fine more ok : Type 0) (lost n : ℕ) (s : Stage) (k : Writing → Stage)
      → Goes job whole fine lost n s
      → ((after : ℕ) (t : Writing)
          → Filled job after t
          → todo job t ≤ n
          → t.pending ≡ 0
          → Goes job more ok after n (k t))
      → Goes job (whole × more) (fine × ok) lost n (and_next s k)
  unfolding and_next
  and_next-Goes whole fine more ok lost n (go_on t) k (after, (f, le, z, w)) next =
      Goes-trans whole fine more ok lost after n (k t) w (next after t f le z)
  and_next-Goes whole fine more ok lost n (give_up r t) k g next = (g.0, g.1, (λ p. g.2 p.0))
  and_next-Goes whole fine more ok lost n stuck k g next = g

  -- A completion: the checks of its user data pass.
  module _ (lost n : ℕ) (d : Done) (t : Writing) (e : Entry) (rest : List Entry) where
    checked :
        Queued job t.next_off e
        → (not (ud_op e.user_data == 1) || leb job.call.qd (ud_slot e.user_data)) ≡ false
    checked q =
        simp
          (
            q.tag,
            ud_op-pack_ud 1 e.slot (omega arith),
            ud_slot-pack_ud 1 e.slot (omega (arith, q.slot_lt, sound.queue_word)),
          )
          (ground (arith, q.slot_lt))

    account-Goes :
        Queued job t.next_off e
        → Filled job (lost + (e.len - write_moved d e)) (record (wrote d e rest t) {
          written = t.written + write_moved d e;
          inflight = t.inflight - 1;
        })
        → t.pending ≡ 0
        → length t.ring ≡ suc (length rest)
        → todo job t ≤ suc n
        → Goes job
            (Entire d)
            (Fine d)
            lost
            n
            (account job e.user_data (write_answer d e) (wrote d e rest t))
    unfolding account write_answer
    account-Goes q f z count le = elim (Bool-cases (d.errno == 0)) [
      | inr b ↦
          simp (b, checked q)
            (
              refl,
              record {
                clean = f.clean;
                extent = omega (arith, f.extent, f.within);
                count = omega (arith, f.sum, f.within);
              },
              (λ fine. absurd (ground (arith, b, fine))),
            )
      | inl b ↦ elim (Bool-cases (write_cancels job (t.written + (e.len - d.lack)))) [
        | inl c ↦
            simp (b, checked q, c)
              (
                refl,
                record {
                  clean = f.clean;
                  extent = omega (arith, f.extent, f.within);
                  count = omega (arith, f.sum, f.within, moved_fine d e b);
                },
                λ fine. refl,
              )
        | inr c ↦
            simp (b, checked q, c)
              (
                lost + (e.len - write_moved d e),
                (
                  simp (moved_fine d e b) (simp (moved_fine d e b) at f),
                  omega (arith, le, count),
                  z,
                  (λ w. omega (arith, w, moved_fine d e b)),
                ),
              )
      ]
    ]

  reap_from-Goes :
      (lost n : ℕ) (d : Done) (es : List Entry) (t : Writing)
      → es ≡ t.ring
      → Filled job lost t
      → t.pending ≡ 0
      → 0 < t.inflight
      → todo job t ≤ suc n
      → Goes job (Entire d) (Fine d) lost n (reap_from job d es t)
  unfolding reap_from
  reap_from-Goes lost n d [] t q f z h le = absurd (omega (arith, h, f.count, ap length q))
  reap_from-Goes lost n d (e ∷ es) t q f z h le =
      let r = taken d.which e es in
      let own =
        All-taken (Queued job t.next_off) d.which e es
          (subst (All (Queued job t.next_off)) (sym q) f.entries) in
      let count : length t.ring ≡ suc (length r.1) =
        omega (arith, ap length q, length-taken d.which e es) in
      account-Goes lost n d t r.0 r.1 own.0
        (Filled-wrote job sound lost (write_moved d r.0) t r.0 r.1 f z own.0 own.1
          (sym (ap total q) ∙ total-taken d.which e es) count (moved_le d r.0)
          (λ i o a. subst (All (Out i)) q (All-taken_inv (Out i) d.which e es o a)))
        z count le

  pub reap_all-Goes :
      (ds : List Done) (lost n : ℕ) (t : Writing)
      → Filled job lost t
      → t.pending ≡ 0
      → todo job t ≤ n
      → Goes job (All Entire ds) (All Fine ds) lost n (reap_all job ds t)
  unfolding reap_all
  reap_all-Goes [] lost n t f z le = (lost, (f, le, z, (λ w. refl)))
  reap_all-Goes (d ∷ ds) lost n t f z le = elim (Bool-cases (t.inflight == 0)) [
    | inl b ↦ simp b (lost, (f, le, z, (λ w. refl)))
    | inr b ↦ simp b (
        and_next-Goes (Entire d) (Fine d) (All Entire ds) (All Fine ds) lost n _ (reap_all job ds)
          (reap_from-Goes lost n d t.ring t refl f z (ground arith) (omega (arith, le)))
          (λ after u g l y. reap_all-Goes ds after n u g y l))
  ]

  -- The first completion is the one that the wait promises.
  pub reap_some-Goes :
      (d : Done) (ds : List Done) (lost n : ℕ) (t : Writing)
      → Filled job lost t
      → t.pending ≡ 0
      → 0 < t.inflight
      → todo job t ≤ suc n
      → Goes job (All Entire (d ∷ ds)) (All Fine (d ∷ ds)) lost n (reap_all job (d ∷ ds) t)
  unfolding reap_all
  reap_some-Goes d ds lost n t f z h le = simp (nonzero t.inflight h) (
      and_next-Goes (Entire d) (Fine d) (All Entire ds) (All Fine ds) lost n _ (reap_all job ds)
        (reap_from-Goes lost n d t.ring t refl f z h le)
        (λ after u g l y. reap_all-Goes ds after n u g y l))

  -- Queueing writes loses nothing and makes no more to do; with something left to claim, and a place
  -- free, at least one is queued.
  pub fill-Filled :
      (fuel sqes lost : ℕ) (t : Writing)
      → Filled job lost t
      → Filled job lost (fill job fuel sqes t)
        × (todo job (fill job fuel sqes t) ≤ todo job t)
        × (t.inflight + t.pending
            ≤ (fill job fuel sqes t).inflight + (fill job fuel sqes t).pending)
  unfolding fill
  fill-Filled zero sqes lost t f = (f, omega arith, omega arith)
  fill-Filled (suc fuel) zero lost t f = (f, omega arith, omega arith)
  fill-Filled (suc fuel) (suc sqes) lost t f =
      elim (Bool-cases
        (ltb t.next_off job.total_bytes && ltb (t.inflight + t.pending) job.call.qd)) [
          | inr b ↦ simp b (f, omega arith, omega arith)
          | inl b ↦
              let more : t.next_off < job.total_bytes = ground arith in
              let free : t.inflight + t.pending < job.call.qd = ground arith in
              let r =
                fill-Filled fuel sqes lost (queue_write job t)
                  (Filled-queue job sound lost t more free f) in
              simp b (
                r.0,
                omega (
                  arith,
                  r.1,
                  length-append t.ring (
                      entry op_write (slot_of job t.next_off) t.next_off (write_want job t.next_off)
                      ∷ []),
                  write_want-pos job sound t.next_off more,
                  write_want-within job sound t.next_off more,
                ),
                omega (arith, r.2),
              )
        ]

  pub fill_some :
      (fuel sqes lost : ℕ) (t : Writing)
      → Filled job lost t
      → 0 < fuel
      → at_work job t ≡ true
      → 0 < (fill job fuel (suc sqes) t).inflight + (fill job fuel (suc sqes) t).pending
  unfolding fill
  fill_some zero sqes lost t f h b = absurd (omega (arith, h))
  fill_some (suc fuel) sqes lost t f h b =
      elim (Bool-cases
        (ltb t.next_off job.total_bytes && ltb (t.inflight + t.pending) job.call.qd)) [
          | inr c ↦ simp c (ground (arith, b, sound.queue))
          | inl c ↦
              let more : t.next_off < job.total_bytes = ground arith in
              let free : t.inflight + t.pending < job.call.qd = ground arith in
              simp c (
                omega (
                  arith,
                  (fill-Filled fuel sqes lost (queue_write job t)
                      (Filled-queue job sound lost t more free f)).2,
                ))
        ]
