-- ===== src/Sync/Lengths.antt =====
-- The lengths that scatter and gather pass to C.
use mathlib.Core.Path.{sym, subst}
use pyuring.Prelude.{
  sym, ◌≤◌, ltb, ℕ, ◌≡◌, refl, true, false, List, [], ◌∷◌, ◌⊎◌, inl, inr, arith, map, length,
  Bool-cases,
}
use pyuring.Errors.{Result, Exception, ok, err, value_error, type_error}
use pyuring.Abi.Convert.{Arg, iovecs}
use pyuring.Sync.Request.{no_result, Request, Buffer, request_of, size}
use pyuring.Sync.Registration.{buffers_request, register_part}
use pyuring.Sync.Vectors.{each_part, with_parts, writable_part, readable_part}
use pyuring.Sync.Accepted.{WhenOk}

abbrev pub Every : (Buffer → Type 0) → List Buffer → Type 0
Every P [] = Unit
Every P (b ∷ bs) = P b × Every P bs

-- One turn of a loop gives this length and shows `P`, or raises.
abbrev Turns : (Buffer → Type 0) → (Buffer → ℕ) → Result ℕ → Buffer → Type 0
Turns P len q b = (P b × (q ≡ ok (len b))) ⊎ ((e : Exception) × (q ≡ err e))

module _ (P : Buffer → Type 0) (len : Buffer → ℕ) (g : Buffer → Result ℕ)
    (turns : (b : Buffer) → Turns P len (g b) b) where
  pub each_part_lem :
      (ps : List Buffer)
      → (Every P ps × (each_part g ps ≡ ok (map len ps)))
        ⊎ ((e : Exception) × (each_part g ps ≡ err e))
  unfolding each_part
  each_part_lem [] = inl (tt, refl)
  each_part_lem (p ∷ ps) = elim (turns p) [
    | inr a ↦ inr (a.0, ground arith)
    | inl a ↦ elim (each_part_lem ps) [
      | inr b ↦ inr (b.0, ground arith)
      | inl b ↦ inl ((a.0, b.0), ground arith)
    ]
  ]

  pub with_parts_lem :
      (ps : List Buffer) (k : Arg → Arg → Request)
      → (Every P ps × (with_parts g ps k ≡ ok (k (iovecs (map len ps)) (size (length ps)))))
        ⊎ ((e : Exception) × (with_parts g ps k ≡ err e))
  unfolding with_parts request_of
  with_parts_lem [] k = inr (value_error, refl)
  with_parts_lem (p ∷ ps) k = elim (each_part_lem (p ∷ ps)) [
    | inl a ↦ inl (a.0, ground arith)
    | inr a ↦ inr (a.0, ground arith)
  ]

abbrev pub Writable : Buffer → Type 0
Writable b = (b.readonly ≡ false) × (b.contiguous ≡ true)

abbrev pub Sendable : Buffer → Type 0
Sendable b = (b.is_bytes ≡ true) ⊎ ((b.readonly ≡ false) × (b.contiguous ≡ true))

writable_part-Turns : (b : Buffer) → Turns Writable (λ b. b.nbytes) (writable_part b) b
writable_part-Turns b = elim (Bool-cases b.readonly) [
  | inl e ↦ inr (type_error, ground arith)
  | inr e ↦ elim (Bool-cases b.contiguous) [
    | inl f ↦ inl ((e, f), ground arith)
    | inr f ↦ inr (type_error, ground arith)
  ]
]

-- The lengths that a scatter passes are those of the memory of its parts, all of which are writable
-- and in one piece; else it raises, as it does without any part.
scatter_lengths :
    (parts : List Buffer) (k : Arg → Arg → Request)
    → (Every Writable parts
        × (with_parts writable_part parts k
            ≡ ok (k (iovecs (map (λ b. b.nbytes) parts)) (size (length parts)))))
      ⊎ ((e : Exception) × (with_parts writable_part parts k ≡ err e))
scatter_lengths parts k = with_parts_lem Writable _ writable_part writable_part-Turns parts k

readable_part-Turns : (b : Buffer) → Turns Sendable (λ b. b.len) (readable_part b) b
readable_part-Turns b = elim (Bool-cases b.is_bytes) [
  | inl i ↦ inl (inl i, ground arith)
  | inr i ↦ elim (Bool-cases b.contiguous) [
    | inr f ↦ inr (value_error, ground arith)
    | inl f ↦ elim (Bool-cases b.readonly) [
      | inl e ↦ inr (type_error, ground arith)
      | inr e ↦ elim (Bool-cases (ltb b.nbytes b.len)) [
        | inl l ↦ inr (value_error, ground arith)
        | inr l ↦ inl (inr (e, f), ground arith)
      ]
    ]
  ]
]

-- The lengths that a gather passes are `len` of its parts, each a `bytes` or writable and in one
-- piece; else it raises, as it does without any part. `len` counts items: a part with items of
-- several bytes is sent in part.
gather_lengths :
    (parts : List Buffer) (k : Arg → Arg → Request)
    → (Every Sendable parts
        × (with_parts readable_part parts k
            ≡ ok (k (iovecs (map (λ b. b.len) parts)) (size (length parts)))))
      ⊎ ((e : Exception) × (with_parts readable_part parts k ≡ err e))
gather_lengths parts k = with_parts_lem Sendable _ readable_part readable_part-Turns parts k

abbrev pub Registrable : Buffer → Type 0
Registrable b = (b.is_bytes ≡ false) × (b.readonly ≡ false) × (b.contiguous ≡ true)

register_part-Turns : (b : Buffer) → Turns Registrable (λ b. b.nbytes) (register_part b) b
register_part-Turns b = elim (Bool-cases b.is_bytes) [
  | inl i ↦ inr (type_error, ground arith)
  | inr i ↦ elim (Bool-cases b.readonly) [
    | inl e ↦ inr (type_error, ground arith)
    | inr e ↦ elim (Bool-cases b.contiguous) [
      | inl f ↦ inl ((i, e, f), ground arith)
      | inr f ↦ inr (value_error, ground arith)
    ]
  ]
]

-- The request of `register_buffers`, for buffers that it takes.
pub buffers_request_lem :
    (bs : List Buffer)
    → (Every Registrable bs
        × (buffers_request bs
            ≡ ok (
                no_result "uring_register_buffers"
                  (iovecs (map (λ b. b.nbytes) bs) ∷ size (length bs) ∷ []))))
      ⊎ ((e : Exception) × (buffers_request bs ≡ err e))
unfolding request_of
buffers_request_lem [] = inr (value_error, refl)
buffers_request_lem (b ∷ bs) =
    elim (each_part_lem Registrable _ register_part register_part-Turns (b ∷ bs)) [
      | inl a ↦ inl (a.0, ground arith)
      | inr a ↦ inr (a.0, ground arith)
    ]

pub length-map_≤ : {A B : Type 0} (f : A → B) (bs : List A) → length bs ≤ length (map f bs)
length-map_≤ f [] = omega arith
length-map_≤ f (b ∷ bs) = let rest = length-map_≤ f bs in omega arith

module _ (P : Request → Type 0) (parts : List Buffer) (k : Arg → Arg → Request) where
  pub scatter-WhenOk :
      P (k (iovecs (map (λ b. b.nbytes) parts)) (size (length parts)))
      → WhenOk P (with_parts writable_part parts k)
  scatter-WhenOk h = elim (scatter_lengths parts k) [
    | inl a ↦ subst (WhenOk P) (sym a.1) h
    | inr a ↦ subst (WhenOk P) (sym a.1) tt
  ]

  pub gather-WhenOk :
      P (k (iovecs (map (λ b. b.len) parts)) (size (length parts)))
      → WhenOk P (with_parts readable_part parts k)
  gather-WhenOk h = elim (gather_lengths parts k) [
    | inl a ↦ subst (WhenOk P) (sym a.1) h
    | inr a ↦ subst (WhenOk P) (sym a.1) tt
  ]

-- A scatter or a gather without a part raises a `ValueError`. With parts, the lengths that a scatter
-- passes are those of the memory of its parts, all of which are writable and in one piece, and the
-- lengths that a gather passes are `len` of its parts, each a `bytes` or writable and in one piece;
-- or it raises.
pub vector_lengths :
    ((k : Arg → Arg → Request)
      → (with_parts writable_part [] k ≡ err value_error)
        × (with_parts readable_part [] k ≡ err value_error))
    × ((parts : List Buffer) (k : Arg → Arg → Request)
        → (Every Writable parts
            × (with_parts writable_part parts k
                ≡ ok (k (iovecs (map (λ b. b.nbytes) parts)) (size (length parts)))))
          ⊎ ((e : Exception) × (with_parts writable_part parts k ≡ err e)))
    × ((parts : List Buffer) (k : Arg → Arg → Request)
        → (Every Sendable parts
            × (with_parts readable_part parts k
                ≡ ok (k (iovecs (map (λ b. b.len) parts)) (size (length parts)))))
          ⊎ ((e : Exception) × (with_parts readable_part parts k ≡ err e)))
unfolding with_parts
vector_lengths = ((λ k. (refl, refl)), scatter_lengths, gather_lengths)
