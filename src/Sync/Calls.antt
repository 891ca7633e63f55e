-- ===== src/Sync/Calls.antt =====
-- What a synchronous method does with the answer of its native function.
use pyuring.Prelude.{
  Option, ◌≤◌, ap, ◌==◌, suc, Bool-cases, ◌∙◌, String, ◌<◌, ℕ, ◌≡◌, refl, true, false, ℤ, pos, ◌≢◌,
  negsuc, is_neg, magnitude, ◌⊎◌, inl, inr, arith, none,
}
use pyuring.Errors.{
  Where, UringError, Exception, uring_error, type_error, ok, err, raise_for_neg_errno, Result,
}
use pyuring.Errors.Raise.{raise_for_neg_errno_lem}
use pyuring.Ctx.State.{UringCtx, ensure_open, ring}
use pyuring.Sync.Waits
use pyuring.Sync.Request.{
  request_of, Gives, tested, Library, Request, Reply, Buffer, nothing, the_result,
  nothing_at_timeout, dispatch, perform, call, returned,
}
use pyuring.Ctx.Careful.{ensure_open-cases}

-- What the test of a result comes to.
abbrev Checked : Gives → String → Where → ℤ → UringCtx → Type 0
Checked g name w ret c =
    ((is_neg ret ≡ false) × (tested g name w ret c ≡ (ok tt, c)))
    ⊎ ((g ≡ nothing_at_timeout) × (ret ≡ negsuc 61) × (tested g name w ret c ≡ (ok tt, c)))
    ⊎ ((is_neg ret ≡ true)
        × (g ≡ nothing_at_timeout → ret ≢ negsuc 61)
        × (e : UringError) × (tested g name w ret c ≡ (err (uring_error e), c))
        × (e.errno ≡ magnitude ret)
        × (0 < e.errno)
        × (e.operation ≡ name))

raised-Checked :
    (g : Gives) (name : String) (w : Where) (ret : ℤ) (c : UringCtx)
    → (g ≡ nothing_at_timeout → ret ≢ negsuc 61)
    → (tested g name w ret c ≡ raise_for_neg_errno ret name w c)
    → Checked g name w ret c
raised-Checked g name w ret c late h = elim (raise_for_neg_errno_lem ret name w c) [
  | inl a ↦ inl (a.0, h ∙ a.1)
  | inr a ↦
      let (neg, e, raised, number, positive, m, t, operation, f, o, l) = a in
      inr (inr (neg, late, e, h ∙ raised, number, positive, operation))
]

tested-Checked :
    (g : Gives) (name : String) (w : Where) (ret : ℤ) (c : UringCtx) → Checked g name w ret c
unfolding tested
tested-Checked nothing name w ret c = raised-Checked nothing name w ret c (λ q. ground arith) refl
tested-Checked the_result name w ret c =
    raised-Checked the_result name w ret c (λ q. ground arith) refl
tested-Checked nothing_at_timeout name w (pos n) c =
    raised-Checked nothing_at_timeout name w (pos n) c (λ q r. ground arith) refl
tested-Checked nothing_at_timeout name w (negsuc n) c = elim (Bool-cases (suc n == 62)) [
  | inl e ↦ inr (inl (refl, ap negsuc (ground arith), rw e refl))
  | inr e ↦
      raised-Checked nothing_at_timeout name w (negsuc n) c (λ q r. ground (arith, e, r))
        (rw e refl)
]

-- The three ends of a method: its value, the silent `-ETIME` of `timeout`, and a `UringError`.
abbrev pub CallEnds : Library → ℕ → Request → Reply → UringCtx → Type 0
CallEnds lib tid r reply c =
    ((is_neg reply.ret ≡ false) × (call lib tid (ok r) c ≡ (ok (returned r reply.ret), c)))
    ⊎ ((r.gives ≡ nothing_at_timeout)
        × (reply.ret ≡ negsuc 61)
        × (call lib tid (ok r) c ≡ (ok none, c)))
    ⊎ ((is_neg reply.ret ≡ true)
        × (r.gives ≡ nothing_at_timeout → reply.ret ≢ negsuc 61)
        × (e : UringError) × (call lib tid (ok r) c ≡ (err (uring_error e), c))
        × (e.errno ≡ magnitude reply.ret)
        × (0 < e.errno)
        × (e.operation ≡ r.function))

pub call_lem :
    (lib : Library) (tid : ℕ) (r : Request) (reply : Reply) (c : UringCtx)
    → ensure_open tid c ≡ (ok tt, c)
    → dispatch lib r ≡ ok reply
    → CallEnds lib tid r reply c
unfolding call perform ring
call_lem lib tid r reply c g d = elim (tested-Checked r.gives r.function r.place reply.ret c) [
  | inl a ↦ inl (a.0, ground arith)
  | inr a ↦ elim a [
    | inl b ↦ inr (inl (b.0, b.1, ground arith))
    | inr b ↦
        let (neg, late, e, raised, number, positive, operation) = b in
        inr (inr (neg, late, e, ground arith, number, positive, operation))
  ]
]

-- A context that is closed, or belongs to another thread, makes every method raise the error of the
-- guard, whatever C would have answered, and stays as it is.
pub call_refused :
    (lib : Library) (tid : ℕ) (r : Request) (c : UringCtx) (x : Exception)
    → ensure_open tid c ≡ (err x, c)
    → call lib tid (ok r) c ≡ (err x, c)
unfolding call perform ring
call_refused lib tid r c x h = ground arith

call_untaken :
    (lib : Library) (tid : ℕ) (r : Request) (c : UringCtx) (x : Exception)
    → ensure_open tid c ≡ (ok tt, c)
    → dispatch lib r ≡ err x
    → call lib tid (ok r) c ≡ (err x, c)
unfolding call perform ring
call_untaken lib tid r c x g d = ground arith

-- What a call comes to: a value or an exception, and the context as it was.
abbrev pub Ends : Result (Option ℤ) × UringCtx → UringCtx → Type 0
Ends q c = ((v : Option ℤ) × (q ≡ (ok v, c))) ⊎ ((e : Exception) × (q ≡ (err e, c)))

call_open-Ends :
    (lib : Library) (tid : ℕ) (r : Request) (c : UringCtx) (d : Result Reply)
    → ensure_open tid c ≡ (ok tt, c)
    → dispatch lib r ≡ d
    → Ends (call lib tid (ok r) c) c
call_open-Ends lib tid r c (err x) g d = inr (x, call_untaken lib tid r c x g d)
call_open-Ends lib tid r c (ok reply) g d = elim (call_lem lib tid r reply c g d) [
  | inl a ↦ inl (returned r reply.ret, a.1)
  | inr a ↦ elim a [ inl b ↦ inl (none, b.2) | inr b ↦ inr (uring_error b.2, b.3) ]
]

pub call-Ends :
    (lib : Library) (tid : ℕ) (q : Result Request) (c : UringCtx) → Ends (call lib tid q c) c
unfolding call
call-Ends lib tid (err e) c = inr (e, refl)
call-Ends lib tid (ok r) c = elim (ensure_open-cases tid c) [
  | inl g ↦ call_open-Ends lib tid r c (dispatch lib r) g refl
  | inr (x, g) ↦ inr (x, call_refused lib tid r c x g)
]

-- `futex_wake` and `futex_wait` of a buffer that meets their contract, on an open context and in its
-- thread, raise a `TypeError` and never reach C: `byref(w[0])` is `byref` of an `int`.
pub futex_always_raises :
    (lib : Library) (tid : ℕ) (uaddr : Buffer) (val mask futex_flags flags : ℤ) (c : UringCtx)
    → ensure_open tid c ≡ (ok tt, c)
    → uaddr.readonly ≡ false
    → uaddr.contiguous ≡ true
    → 4 ≤ uaddr.nbytes
    → (call lib tid (Waits.futex_wake uaddr val mask futex_flags flags) c ≡ (err type_error, c))
      × (call lib tid (Waits.futex_wait uaddr val mask futex_flags flags) c ≡ (err type_error, c))
unfolding call perform ring request_of dispatch
futex_always_raises lib tid uaddr val mask futex_flags flags c g r k n =
    (ground arith, ground arith)
