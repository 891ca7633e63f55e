-- ===== src/Ctx/History.antt =====
-- Histories of asynchronous calls on one `UringCtx`, from any thread, with any answer of liburing.
use Prim.Native.Nat.{suc, ℕ}
use pyuring.Ctx.Async.{
  read_async_ptr, unsupported, accepted, no_sqe, bytearray, no_cqe, refused, peeked, cqe,
  peek_failed, pair, bytes, wait_failed, settle, splice_submit, write_async, erase, Buf, read_async,
  Peek, Wait, wait_completion, peek_completion, Submission,
}
use pyuring.Prelude.{refl, suc, arith, ℕ_discrete, inr, inl, ◌⊎◌, ◌≡◌, ℤ, ◌∷◌, List}
use pyuring.Ctx.State.{mask32, splices, reads, writes, pointer, Op, UringCtx}
use pyuring.Ctx.Pins.{Absent, Absent-settle_inv, lookup-erase, Safe-settle, IsPinned}
use pyuring.Ctx.Careful.{
  call_async_accepted, call_async_raised, call_async_full, tag_fits, entry,
  submit_and_track-IsPinned, ensure_open-cases, Careful,
}
use mathlib.Core.List.{[]}

pub data Call : Type 0 where
  read : Submission → Buf → ℕ → ℕ → Call
  write : Submission → Buf → ℕ → ℕ → Call
  splice : Submission → ℕ → ℤ → ℕ → Call
  wait : Wait → Call
  peek : Peek → Call

-- A call in the thread `tid`, whatever it returns or raises.
pub step : ℕ × Call → UringCtx → UringCtx
step (tid, read reply buf offset ud) c = (read_async tid reply buf offset ud c).1
step (tid, write reply buf offset ud) c = (write_async tid reply buf offset ud c).1
step (tid, splice reply offset n ud) c = (splice_submit tid reply offset n ud c).1
step (tid, wait w) c = (wait_completion tid w c).1
step (tid, peek p) c = (peek_completion tid p c).1

pub run : List (ℕ × Call) → UringCtx → UringCtx
run [] c = c
run (k ∷ ks) c = run ks (step k c)

-- Every submission of the history uses a new tag that fits.
abbrev pub CarefulCall : Call → UringCtx → Type 0
CarefulCall (read reply buf offset ud) c = Careful ud reply c
CarefulCall (write reply buf offset ud) c = Careful ud reply c
CarefulCall (splice reply offset n ud) c = Careful ud reply c
CarefulCall (wait w) c = Unit
CarefulCall (peek p) c = Unit

abbrev pub CarefulRun : List (ℕ × Call) → UringCtx → Type 0
CarefulRun [] c = Unit
CarefulRun (k ∷ ks) c = CarefulCall k.1 c × CarefulRun ks (step k c)

reap-IsPinned :
    (c : UringCtx) (t : ℕ)
    → IsPinned c
    → IsPinned (record c { keepalive = erase t c.keepalive; inflight = settle t c.inflight })
reap-IsPinned c t v = record {
  safe = Safe-settle c.keepalive t c.inflight v.safe;
  no_leak = λ k h. elim (ℕ_discrete t k) [
    | yes e ↦ ground (arith, lookup-erase t k c.keepalive)
    | no ne ↦
        ground
          (arith, lookup-erase t k c.keepalive, v.no_leak k (Absent-settle_inv t k c.inflight ne h))
  ];
}

wait_completion_cases :
    (tid : ℕ) (w : Wait) (c : UringCtx)
    → ((wait_completion tid w c).1 ≡ c)
      ⊎ ((t : ℕ) × ((wait_completion tid w c).1
            ≡ record c { keepalive = erase t c.keepalive; inflight = settle t c.inflight }))
unfolding wait_completion
wait_completion_cases tid (wait_failed e) c =
    inl (elim (ensure_open-cases tid c) [ inl o ↦ ground arith | inr (x, o) ↦ ground arith ])
wait_completion_cases tid (cqe t res) c = elim (ensure_open-cases tid c) [
  | inl o ↦ inr (t, ground arith)
  | inr (x, o) ↦ inl (ground arith)
]

peek_completion_cases :
    (tid : ℕ) (p : Peek) (c : UringCtx)
    → ((peek_completion tid p c).1 ≡ c)
      ⊎ ((t : ℕ) × ((peek_completion tid p c).1
            ≡ record c { keepalive = erase t c.keepalive; inflight = settle t c.inflight }))
unfolding peek_completion
peek_completion_cases tid no_cqe c =
    inl (elim (ensure_open-cases tid c) [ inl o ↦ ground arith | inr (x, o) ↦ ground arith ])
peek_completion_cases tid (peek_failed e) c =
    inl (elim (ensure_open-cases tid c) [ inl o ↦ ground arith | inr (x, o) ↦ ground arith ])
peek_completion_cases tid (peeked t res) c = elim (ensure_open-cases tid c) [
  | inl o ↦ inr (t, ground arith)
  | inr (x, o) ↦ inl (ground arith)
]

reaped-IsPinned :
    (c c' : UringCtx)
    → IsPinned c
    → ((c' ≡ c)
        ⊎ ((t : ℕ) × (c'
              ≡ record c { keepalive = erase t c.keepalive; inflight = settle t c.inflight })))
    → IsPinned c'
reaped-IsPinned c c' v (inl e) = rw e v
reaped-IsPinned c c' v (inr (t, e)) = rw e (reap-IsPinned c t v)

splice_submit_cases :
    (tid offset : ℕ) (reply : Submission) (n : ℤ) (ud : ℕ) (c : UringCtx)
    → Careful ud reply c
    → ((splice_submit tid reply offset n ud c).1 ≡ c)
      ⊎ ((op : Op) × (op.tag ≡ ud)
          × (op.memory ≡ pointer 0)
          × ((splice_submit tid reply offset n ud c).1 ≡ record c { inflight = op ∷ c.inflight }))
unfolding splice_submit
splice_submit_cases tid offset (refused e) n ud c h = absurd h.2
splice_submit_cases tid offset no_sqe n ud c h =
    inl (elim (ensure_open-cases tid c) [ inl o ↦ ground arith | inr (x, o) ↦ ground arith ])
splice_submit_cases tid offset accepted n ud c h = elim (ensure_open-cases tid c) [
  | inl o ↦ inr (
    entry splices (pointer 0) (mask32 n) offset ud,
    tag_fits ud h.1,
    refl,
    ground (arith, tag_fits ud h.1),
  )
  | inr (x, o) ↦ inl (ground arith)
]

foreign-IsPinned :
    (c : UringCtx) (op : Op) (ud p : ℕ)
    → op.tag ≡ ud
    → op.memory ≡ pointer p
    → Absent ud c.inflight
    → IsPinned c
    → IsPinned (record c { inflight = op ∷ c.inflight })
foreign-IsPinned c op ud p e m a v = record {
  safe = (rw m tt, rw e a, v.safe);
  no_leak = λ t h. v.no_leak t h.1;
}

fresh-IsPinned : (c : UringCtx) (n : ℕ) → IsPinned c → IsPinned (record c { fresh = n })
fresh-IsPinned c n v = record { safe = v.safe; no_leak = v.no_leak }

read_async_ptr-IsPinned :
    (tid : ℕ) (reply : Submission) (p n offset ud : ℕ) (c : UringCtx)
    → Careful ud reply c
    → IsPinned c
    → IsPinned (read_async_ptr tid reply p n offset ud c).1
unfolding read_async_ptr
read_async_ptr-IsPinned tid (refused x) p n offset ud c h v = absurd h.2
read_async_ptr-IsPinned tid no_sqe p n offset ud c h v = elim (ensure_open-cases tid c) [
  | inl o ↦ rw (call_async_full tid reads "uring_read_async" (pointer p) n offset ud c o).0 v
  | inr (x, o) ↦
      rw (call_async_raised tid reads "uring_read_async" (pointer p) n offset ud no_sqe c x o) v
]
read_async_ptr-IsPinned tid accepted p n offset ud c h v = elim (ensure_open-cases tid c) [
  | inl o ↦
      rw (call_async_accepted tid reads "uring_read_async" (pointer p) n offset ud c o h.1)
        (foreign-IsPinned c _ ud p (tag_fits ud h.1) refl h.0 v)
  | inr (x, o) ↦
      rw (call_async_raised tid reads "uring_read_async" (pointer p) n offset ud accepted c x o) v
]

read_async-IsPinned :
    (tid : ℕ) (reply : Submission) (buf : Buf) (offset ud : ℕ) (c : UringCtx)
    → Careful ud reply c
    → IsPinned c
    → IsPinned (read_async tid reply buf offset ud c).1
unfolding read_async
read_async-IsPinned tid reply (pair p n) offset ud c h v =
    read_async_ptr-IsPinned tid reply p n offset ud c h v
read_async-IsPinned tid reply (bytes o n) offset ud c h v =
    submit_and_track-IsPinned tid reads "uring_read_async" c.fresh n offset ud
      (record c { fresh = suc c.fresh }) reply h (fresh-IsPinned c (suc c.fresh) v)
read_async-IsPinned tid reply (bytearray o n) offset ud c h v =
    submit_and_track-IsPinned tid reads "uring_read_async" o n offset ud c reply h v
read_async-IsPinned tid reply unsupported offset ud c h v = v

write_async-IsPinned :
    (tid : ℕ) (reply : Submission) (buf : Buf) (offset ud : ℕ) (c : UringCtx)
    → Careful ud reply c
    → IsPinned c
    → IsPinned (write_async tid reply buf offset ud c).1
unfolding write_async
write_async-IsPinned tid reply (bytes o n) offset ud c h v =
    submit_and_track-IsPinned tid writes "uring_write_async" o n offset ud c reply h v
write_async-IsPinned tid reply (bytearray o n) offset ud c h v =
    submit_and_track-IsPinned tid writes "uring_write_async" o n offset ud c reply h v
write_async-IsPinned tid reply (pair p n) offset ud c h v = v
write_async-IsPinned tid reply unsupported offset ud c h v = v

-- One call keeps the pins exact, whatever it returns or raises.
pub step-IsPinned :
    (tid : ℕ) (k : Call) (c : UringCtx) → CarefulCall k c → IsPinned c → IsPinned (step (tid, k) c)
unfolding step
step-IsPinned tid (read reply buf offset ud) c h v =
    read_async-IsPinned tid reply buf offset ud c h v
step-IsPinned tid (write reply buf offset ud) c h v =
    write_async-IsPinned tid reply buf offset ud c h v
step-IsPinned tid (splice reply offset n ud) c h v =
    elim (splice_submit_cases tid offset reply n ud c h) [
      | inl e ↦ rw e v
      | inr (op, t, m, e) ↦ rw e (foreign-IsPinned c op ud 0 t m h.0 v)
    ]
step-IsPinned tid (wait w) c h v = reaped-IsPinned c _ v (wait_completion_cases tid w c)
step-IsPinned tid (peek p) c h v = reaped-IsPinned c _ v (peek_completion_cases tid p c)

-- After any history of reads, writes, splices and completions in which every submission uses a tag
-- that no entry in flight has and that is below 2^63, and no submission is refused by liburing,
-- each entry in flight has its own tag and its buffer object pinned under it, and no tag that is
-- not in flight pins anything.
pub run-IsPinned :
    (ks : List (ℕ × Call)) (c : UringCtx) → CarefulRun ks c → IsPinned c → IsPinned (run ks c)
unfolding run
run-IsPinned [] c h v = v
run-IsPinned ((tid, k) ∷ ks) c h v =
    run-IsPinned ks (step (tid, k) c) h.1 (step-IsPinned tid k c h.0 v)
