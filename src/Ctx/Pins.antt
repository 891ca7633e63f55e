-- ===== src/Ctx/Pins.antt =====
-- The buffers that the asynchronous methods pin until their completion is reaped.
use pyuring.Prelude.{ℕ_discrete, ◌≢◌, ℕ, ◌≡◌, none, some, List, [], ◌∷◌, arith, ◌==◌, if◌then◌else◌}
use pyuring.Ctx.State.{pointer, Memory, UringCtx, Op, object}
use pyuring.Ctx.Async.{settle, lookup, erase}

pub lookup-erase :
    {V : Type 0} (k j : ℕ) (m : List (ℕ × V))
    → lookup j (erase k m) ≡ (if k == j then none else lookup j m)
unfolding lookup erase
lookup-erase k j [] = ground arith
lookup-erase k j ((i, v) ∷ m) = ground (arith, lookup-erase k j m)

-- The memory of an entry is safe: a raw pointer is the caller's, an object is pinned under the tag.
abbrev pub Pinned : List (ℕ × ℕ) → ℕ → Memory → Type 0
Pinned keep tag (object o) = lookup tag keep ≡ some o
Pinned keep tag (pointer p) = Unit

abbrev pub Absent : ℕ → List Op → Type 0
Absent tag [] = Unit
Absent tag (op ∷ ops) = (op.tag ≢ tag) × Absent tag ops

-- Every entry is pinned, and no two entries share a tag.
abbrev pub Safe : List (ℕ × ℕ) → List Op → Type 0
Safe keep [] = Unit
Safe keep (op ∷ ops) = Pinned keep op.tag op.memory × Absent op.tag ops × Safe keep ops

Pinned-insert :
    (keep : List (ℕ × ℕ)) (t o tag : ℕ) (m : Memory)
    → tag ≢ t
    → Pinned keep tag m
    → Pinned ((t, o) ∷ keep) tag m
unfolding lookup
Pinned-insert keep t o tag (object p) ne h = ground arith
Pinned-insert keep t o tag (pointer p) ne h = tt

Pinned-erase :
    (keep : List (ℕ × ℕ)) (t tag : ℕ) (m : Memory)
    → tag ≢ t
    → Pinned keep tag m
    → Pinned (erase t keep) tag m
Pinned-erase keep t tag (object p) ne h = ground (arith, lookup-erase t tag keep)
Pinned-erase keep t tag (pointer p) ne h = tt

pub Safe-insert :
    (keep : List (ℕ × ℕ)) (t o : ℕ) (ops : List Op)
    → Absent t ops
    → Safe keep ops
    → Safe ((t, o) ∷ keep) ops
Safe-insert keep t o [] a s = tt
Safe-insert keep t o (op ∷ ops) a s =
    (Pinned-insert keep t o op.tag op.memory a.0 s.0, s.1, Safe-insert keep t o ops a.1 s.2)

Safe-erase :
    (keep : List (ℕ × ℕ)) (t : ℕ) (ops : List Op)
    → Absent t ops
    → Safe keep ops
    → Safe (erase t keep) ops
Safe-erase keep t [] a s = tt
Safe-erase keep t (op ∷ ops) a s =
    (Pinned-erase keep t op.tag op.memory a.0 s.0, s.1, Safe-erase keep t ops a.1 s.2)

Absent-settle : (t k : ℕ) (ops : List Op) → Absent k ops → Absent k (settle t ops)
unfolding settle
Absent-settle t k [] a = tt
Absent-settle t k (op ∷ ops) a = ground (arith, Absent-settle t k ops a.1)

pub Absent-settle_inv : (t k : ℕ) (ops : List Op) → t ≢ k → Absent k (settle t ops) → Absent k ops
unfolding settle
Absent-settle_inv t k [] ne a = tt
Absent-settle_inv t k (op ∷ ops) ne a = ground (arith, Absent-settle_inv t k ops ne)

pub Safe-settle :
    (keep : List (ℕ × ℕ)) (t : ℕ) (ops : List Op)
    → Safe keep ops
    → Safe (erase t keep) (settle t ops)
unfolding settle
Safe-settle keep t [] s = tt
Safe-settle keep t (op ∷ ops) s = elim (ℕ_discrete op.tag t) [
  | yes e ↦ let absent : Absent t ops = rw e at s.1 in ground (arith, Safe-erase keep t ops absent)
  | no ne ↦ ground (
    arith,
    Safe-settle keep t ops s.2,
    Absent-settle t op.tag ops s.1,
    Pinned-erase keep t op.tag op.memory ne s.0,
  )
]

-- What a pinned buffer and an entry have to do with each other: every entry that uses an object is
-- pinned, tags are distinct, and nothing stays pinned for a tag that is not in flight.
pub record IsPinned (c : UringCtx) : Type 0 where
  pub safe : Safe c.keepalive c.inflight
  pub no_leak : (t : ℕ) → Absent t c.inflight → lookup t c.keepalive ≡ none
