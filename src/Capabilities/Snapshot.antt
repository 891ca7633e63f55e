-- ===== src/Capabilities/Snapshot.antt =====
-- The probe that pyuring/capabilities.py takes of a ring, through the methods of
-- pyuring/native/uring_ctx.py.
use mathlib.Core.Path.{subst}
use pyuring.Prelude.{
  true, none, String, ◌∙◌, sym, ap, ℕ, zero, suc, ◌≡◌, refl, Bool, false, not, ◌==◌, some, List, [],
  ◌∷◌, ℤ, pos, negsuc, inl, inr, arith, length, map, get_elem?, ltb, ◌<◌, Bool-cases,
}
use pyuring.Errors.{Result, Action, ok, err, value_error, raise, pure, ◌>>=◌}
use pyuring.Ctx.State.{UringCtx}
use pyuring.Abi.Convert.{low_bits}
use pyuring.Sync.Request.{returned, call, Library, Request, Reply, perform}
use pyuring.Sync.Registration.{last_op_request, mask_request, mask_of, probe_supported_mask, fill}
use pyuring.Capabilities.Probe.{
  unsupported_error, require_opcode_supported, opcode_supported, get_probe_info, IoUringProbeInfo,
  mask_bit,
}
use pyuring.Sync.Calls.{call-Ends}
use pyuring.Capabilities.Cache.{cached_answers}

-- A `c_ubyte`.
abbrev pub byte : ℤ → ℕ
byte n = low_bits 128 n

abbrev pub info_of : ℤ → List ℤ → Action UringCtx IoUringProbeInfo
info_of (negsuc n) mask = raise value_error
info_of (pos lo) mask = pure (record { last_op = lo; opcode_mask = map byte mask })

-- The body of the `with` in `get_probe_info`. A `last_op` is not negative here.
unfoldable pub snapshot : Library → ℕ → Action UringCtx IoUringProbeInfo
snapshot lib tid = do
  reply ← perform lib tid last_op_request
  mask ← probe_supported_mask lib tid
  info_of reply.ret mask

length-fill : (n : ℕ) (words : List ℤ) → length (fill n words) ≡ n
length-fill zero words = refl
length-fill (suc n) [] = let rest = length-fill n [] in omega arith
length-fill (suc n) (w ∷ words) = let rest = length-fill n words in omega arith

length-map : {A B : Type 0} (f : A → B) (bs : List A) → length (map f bs) ≡ length bs
length-map f [] = refl
length-map f (b ∷ bs) = let rest = length-map f bs in omega arith

get_elem?-below :
    {A : Type 0} (bs : List A) (n : ℕ) → n < length bs → (a : A) × (get_elem? bs n ≡ some a)
get_elem?-below [] n h = absurd (omega arith)
get_elem?-below (b ∷ bs) zero h = (b, refl)
get_elem?-below (b ∷ bs) (suc n) h = get_elem?-below bs n (omega arith)

bind-ok :
    {S A B : Type 0} (m : Action S A) (f : A → Action S B) (s s' : S) (b : B)
    → (m >>= f) s ≡ (ok b, s')
    → (a : A) × (t : S) × (m s ≡ (ok a, t)) × (f a t ≡ (ok b, s'))
bind-ok {S = S} {A = A} m f s s' b h = came (m s) refl h
  where
    came :
        (q : Result A × S)
        → m s ≡ q
        → (elim q.0 [ ok a ↦ f a q.1 | err e ↦ raise e q.1 ]) ≡ (ok b, s')
        → (a : A) × (t : S) × (m s ≡ (ok a, t)) × (f a t ≡ (ok b, s'))
    came (ok a, t) e h' = (a, t, e, h')
    came (err x, t) e h' = cc

-- A method that returned left the context as it was.
perform_same :
    (lib : Library) (tid : ℕ) (r : Request) (reply : Reply) (c t : UringCtx)
    → perform lib tid r c ≡ (ok reply, t)
    → t ≡ c
perform_same lib tid r reply c t h =
    let e : call lib tid (ok r) c ≡ (ok (returned r reply.ret), t) = unfold call in ground arith in
    elim (call-Ends lib tid (ok r) c) [
      | inl a ↦ ap (λ q. q.1) (sym e ∙ a.1)
      | inr a ↦ ap (λ q. q.1) (sym e ∙ a.1)
    ]

abbrev value_of : {S A : Type 0} → A → Result A × S → A
value_of d (ok a, s) = a
value_of d (err e, s) = d

mask_of-length :
    (lib : Library) (tid lo : ℕ) (c c' : UringCtx) (mask : List ℤ)
    → mask_of lib tid (pos lo) c ≡ (ok mask, c')
    → length mask ≡ suc lo
mask_of-length lib tid lo c c' mask h =
    let (reply, t, p, q) =
      bind-ok (perform lib tid (mask_request (suc lo))) (λ reply. pure (fill (suc lo) reply.words))
        c c' mask h in
    ap (λ r. length (value_of [] r)) (sym q) ∙ length-fill (suc lo) reply.words

probe-length :
    (lib : Library) (tid lo : ℕ) (c c' : UringCtx) (mask : List ℤ) (reply : Reply)
    → perform lib tid last_op_request c ≡ (ok reply, c)
    → reply.ret ≡ pos lo
    → probe_supported_mask lib tid c ≡ (ok mask, c')
    → length mask ≡ suc lo
unfolding probe_supported_mask
probe-length lib tid lo c c' mask reply p e h =
    let (reply', t, p', q) =
      bind-ok (perform lib tid last_op_request) (λ reply. mask_of lib tid reply.ret) c c' mask h in
    mask_of-length lib tid lo t c' mask (
      subst (λ r. mask_of lib tid r t ≡ (ok mask, c'))
        (ap (λ r. (value_of reply r).ret) (sym p' ∙ p) ∙ e) q)

mask_bit-ok :
    (info : IoUringProbeInfo) (opcode : ℤ)
    → length info.opcode_mask ≡ suc info.last_op
    → (b : Bool) × (mask_bit opcode info ≡ ok b)
unfolding mask_bit
mask_bit-ok info (negsuc n) h = (false, refl)
mask_bit-ok info (pos n) h = elim (Bool-cases (ltb info.last_op n)) [
  | inl e ↦ (false, ground arith)
  | inr e ↦
      let (b, found) = get_elem?-below info.opcode_mask n (ground arith) in
      (not (b == 0), ground arith)
]

info_of-length :
    (ret : ℤ) (mask : List ℤ) (info : IoUringProbeInfo) (c c' : UringCtx)
    → ((lo : ℕ) → ret ≡ pos lo → length mask ≡ suc lo)
    → info_of ret mask c ≡ (ok info, c')
    → length info.opcode_mask ≡ suc info.last_op
info_of-length (negsuc n) mask info c c' l h = cc
info_of-length (pos lo) mask info c c' l h =
    let e = ap (value_of info) (sym h) in
    ap (λ i. length i.opcode_mask) e
    ∙ length-map byte mask
    ∙ l lo refl
    ∙ ap (λ i. suc i.last_op) (sym e)

-- Whenever the probe of a ring succeeds, its mask has `last_op + 1` bytes, and so every question about
-- an opcode, negative or too large ones included, has an answer and raises no `IndexError`.
snapshot_answers :
    (lib : Library) (tid : ℕ) (c c' : UringCtx) (info : IoUringProbeInfo)
    → snapshot lib tid c ≡ (ok info, c')
    → (length info.opcode_mask ≡ suc info.last_op)
      × ((opcode : ℤ) → (b : Bool) × (mask_bit opcode info ≡ ok b))
unfolding snapshot
snapshot_answers lib tid c c' info h =
    let (reply, t, p, q) =
      bind-ok (perform lib tid last_op_request)
        (λ reply. probe_supported_mask lib tid >>= info_of reply.ret) c c' info h in
    let same = perform_same lib tid last_op_request reply c t p in
    let (mask, t', p', q') =
      bind-ok (probe_supported_mask lib tid) (info_of reply.ret) t c' info q in
    let len =
      info_of-length reply.ret mask info t' c'
        (λ lo e.
          probe-length lib tid lo c t' mask reply (p ∙ ap (λ s. (ok reply, s)) same) e
            (subst (λ s. probe_supported_mask lib tid s ≡ (ok mask, t')) same p'))
        q' in
    (len, λ opcode. mask_bit-ok info opcode len)

-- Once a probe of a ring succeeded and was cached, every question about an opcode that does not ask for
-- a refresh, negative or too large opcodes included, has one answer, whatever a later probe would
-- report or raise: the one of the
-- mask, which `opcode_supported` returns, and `require_opcode_supported` returns exactly when it is
-- `True` and else raises `EOPNOTSUPP`. The mask has `last_op + 1` bytes, so no `IndexError` comes.
pub probed_answers :
    (lib : Library) (tid : ℕ) (c c' : UringCtx) (info : IoUringProbeInfo)
    (later : Result IoUringProbeInfo) (opcode : ℤ) (operation : String)
    → snapshot lib tid c ≡ (ok info, c')
    → let after = (get_probe_info (ok info) false none).1 in
      (length info.opcode_mask ≡ suc info.last_op)
      × (b : Bool) × (mask_bit opcode info ≡ ok b)
      × (opcode_supported later opcode false after ≡ (ok b, some info))
      × (require_opcode_supported later opcode operation after ≡ (
        elim b as (λ x. Result (Unit {0})) [
          | true ↦ ok tt
          | false ↦ err (unsupported_error operation)
        ],
        some info,
      ))
probed_answers lib tid c c' info later opcode operation h =
    let (len, answer) = snapshot_answers lib tid c c' info h in
    let (b, m) = answer opcode in
    let (kept, supported, required) =
      cached_answers (ok info) later info false b none opcode operation
        (unfold get_probe_info in refl) m in
    (len, b, m, supported, required)
