-- ===== src/Ctx/Careful.antt =====
-- The discipline that the docstrings of `read_async` and `write_async` ask for, and that it keeps
-- every buffer pinned: one call, and any history of calls.
use pyuring.Prelude.{
  refl, none, pos, true, false, Bool, ◌==◌, Bool-cases, inr, inl, Option-cases, String, ◌⊎◌, ℕ, ◌*◌,
  ◌%◌, ◌<◌, ◌≡◌, ◌∷◌, arith,
}
use pyuring.Errors.{Result, err, Exception, ok}
use pyuring.Ctx.State.{
  Memory, thread_error, closed_error, Kind, ensure_open, u64_mod, object, UringCtx, Op,
}
use pyuring.Ctx.Async.{accepted, call_async, no_sqe, lookup, submit_and_track, Submission, refused}
use pyuring.Ctx.Pins.{Safe-insert, Absent, IsPinned}

abbrev pub IsDecided : Submission → Type 0
IsDecided (refused e) = ⊥
IsDecided _ = Unit

-- The tag is new among the entries in flight and fits a signed 64-bit result; liburing submits the
-- entry, or has none to give.
abbrev pub Careful : ℕ → Submission → UringCtx → Type 0
Careful ud reply c = Absent ud c.inflight × (ud * 2 < u64_mod) × (IsDecided reply)

abbrev pub is_ok : {A : Type 0} → Result A → Bool
is_ok (ok a) = true
is_ok (err e) = false

pub tag_fits : (ud : ℕ) → ud * 2 < u64_mod → ud % u64_mod ≡ ud
tag_fits ud h = omega arith

-- After a read or write that returned, its tag is pinned to the object that the entry names.
insert-IsPinned :
    (c : UringCtx) (op : Op) (ud o : ℕ)
    → op.tag ≡ ud
    → op.memory ≡ object o
    → Absent ud c.inflight
    → IsPinned c
    → IsPinned (record c { inflight = op ∷ c.inflight; keepalive = (ud, o) ∷ c.keepalive })
unfolding lookup
insert-IsPinned c op ud o e m a v = record {
  safe = (rw (e, m) (ground arith), rw e a, Safe-insert c.keepalive ud o c.inflight a v.safe);
  no_leak = λ t h. ground (arith, v.no_leak t h.1);
}

pub ensure_open-cases :
    (tid : ℕ) (c : UringCtx)
    → (ensure_open tid c ≡ (ok tt, c)) ⊎ ((e : Exception) × (ensure_open tid c ≡ (err e, c)))
unfolding ensure_open
ensure_open-cases tid c = elim (Option-cases c.handle) [
  | inl closed ↦ inr (closed_error, ground arith)
  | inr (h, open_now) ↦ elim (Option-cases c.owner) [
    | inl unchecked ↦ inl (ground arith)
    | inr (t, owned) ↦ elim (Bool-cases (tid == t)) [
      | inl same ↦ inl (ground arith)
      | inr other_thread ↦ inr (thread_error, ground arith)
    ]
  ]
]

-- The entry that a call prepares.
abbrev pub entry : Kind → Memory → ℕ → ℕ → ℕ → Op
entry kind memory len offset ud = record {
  kind = kind;
  memory = memory;
  len = len;
  offset = offset;
  tag = ud % u64_mod;
}

module _ (tid : ℕ) (kind : Kind) (operation : String) (memory : Memory) (len offset ud : ℕ) where
  pub call_async_raised :
      (reply : Submission) (c : UringCtx) (x : Exception)
      → ensure_open tid c ≡ (err x, c)
      → call_async tid reply kind operation memory len offset ud c ≡ (err x, c)
  unfolding call_async
  call_async_raised reply c x e = ground arith

  pub call_async_full :
      (c : UringCtx)
      → ensure_open tid c ≡ (ok tt, c)
      → (call_async tid no_sqe kind operation memory len offset ud c).1 ≡ c
        × is_ok (call_async tid no_sqe kind operation memory len offset ud c).0 ≡ false
  unfolding call_async
  call_async_full c e = ground arith

  pub call_async_accepted :
      (c : UringCtx)
      → ensure_open tid c ≡ (ok tt, c)
      → ud * 2 < u64_mod
      → call_async tid accepted kind operation memory len offset ud c
        ≡ (ok (pos ud), record c { inflight = entry kind memory len offset ud ∷ c.inflight })
  unfolding call_async
  call_async_accepted c e h = ground (arith, tag_fits ud h)

module _ (tid : ℕ) (kind : Kind) (operation : String) (obj len offset ud : ℕ) (c : UringCtx) where
  pub submit_and_track_raised :
      (reply : Submission) (x : Exception)
      → ensure_open tid c ≡ (err x, c)
      → submit_and_track tid reply kind operation obj len offset ud c ≡ (err x, c)
  unfolding submit_and_track
  submit_and_track_raised reply x e =
      ground (arith, call_async_raised tid kind operation (object obj) len offset ud reply c x e)

  submit_and_track_full :
      ensure_open tid c ≡ (ok tt, c)
      → (submit_and_track tid no_sqe kind operation obj len offset ud c).1 ≡ c
  unfolding submit_and_track
  submit_and_track_full e =
      ground (arith, call_async_full tid kind operation (object obj) len offset ud c e)

  pub submit_and_track_accepted :
      ensure_open tid c ≡ (ok tt, c)
      → ud * 2 < u64_mod
      → lookup ud c.keepalive ≡ none
      → submit_and_track tid accepted kind operation obj len offset ud c ≡ (
        ok (pos ud),
        record c {
          inflight = entry kind (object obj) len offset ud ∷ c.inflight;
          keepalive = (ud, obj) ∷ c.keepalive;
        },
      )
  unfolding submit_and_track
  submit_and_track_accepted e h free =
      ground (arith, call_async_accepted tid kind operation (object obj) len offset ud c e h)

  pub submit_and_track-IsPinned :
      (reply : Submission)
      → Careful ud reply c
      → IsPinned c
      → IsPinned (submit_and_track tid reply kind operation obj len offset ud c).1
  submit_and_track-IsPinned (refused n) h v = absurd h.2
  submit_and_track-IsPinned no_sqe h v = elim (ensure_open-cases tid c) [
    | inl e ↦ rw (submit_and_track_full e) v
    | inr (x, e) ↦ rw (submit_and_track_raised no_sqe x e) v
  ]
  submit_and_track-IsPinned accepted h v = elim (ensure_open-cases tid c) [
    | inl e ↦
        rw (submit_and_track_accepted e h.1 (v.no_leak ud h.0))
          (insert-IsPinned c _ ud obj (tag_fits ud h.1) refl h.0 v)
    | inr (x, e) ↦ rw (submit_and_track_raised accepted x e) v
  ]
