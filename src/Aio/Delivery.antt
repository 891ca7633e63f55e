-- ===== src/Aio/Delivery.antt =====
-- What `_on_readable` and `close` of pyuring/aio.py do with the completions and the waiters.
use pyuring.Prelude.{length, drop, arith, refl, some, none, ◌∷◌, true, false, [], ◌≡◌, List, ℕ, ℤ}
use pyuring.Ctx.State.{UringCtx}
use pyuring.Ctx.Async.{peeked, no_cqe, Peek, Wait}
use pyuring.Ctx.Async
use pyuring.Ctx.State
use pyuring.Aio.State.{
  UringAsync, Waiter, Settled, hand_out, result, cancelled, peek_chain, deliver_peek_chain,
  arm_reader,
}
use pyuring.Errors.{ok, Exception, err}

-- The futures that a waiter still awaits, in the order of the queue, are cancelled one after the
-- other; the log has its newest entry in front.
abbrev pub pending_futures : List Waiter → List ℕ
pending_futures [] = []
pending_futures (w ∷ ws) = elim w.is_done [
  | true ↦ pending_futures ws
  | false ↦ w.fut ∷ pending_futures ws
]

abbrev pub all_cancelled : List ℕ → List (ℕ × Settled) → List (ℕ × Settled)
all_cancelled [] log = log
all_cancelled (fut ∷ futs) log = all_cancelled futs ((fut, cancelled) ∷ log)

-- When the future at the head of the queue is already done (its task is being cancelled) and only one
-- completion is ready, `_on_readable` takes that completion and gives it to nobody, though another
-- waiter stands behind.
done_waiter_loses :
    (tid : ℕ) (pair : ℕ × ℤ) (w v : Waiter) (ws : List Waiter) (u : UringAsync)
    → w.is_done ≡ true
    → (hand_out tid pair w (v ∷ ws) [] u).1.settled ≡ u.settled
unfolding hand_out deliver_peek_chain peek_chain arm_reader
done_waiter_loses tid pair w v ws u h = ground arith

-- When `peek_completion` fails behind a delivered completion, the error leaves `_on_readable` with
-- the other waiters still in the queue and the reader as it was: `_on_readable` had removed it.
peek_error_strands :
    (tid : ℕ) (pair : ℕ × ℤ) (w v : Waiter) (ws : List Waiter) (p : Peek) (e : Exception)
    (c : UringCtx) (peeks : List Peek) (u : UringAsync)
    → Async.peek_completion tid p u.ctx ≡ (err e, c)
    → (hand_out tid pair w (v ∷ ws) (p ∷ peeks) u).1.waiters ≡ v ∷ ws
      × (hand_out tid pair w (v ∷ ws) (p ∷ peeks) u).1.reader_active ≡ u.reader_active
unfolding hand_out deliver_peek_chain peek_chain
peek_error_strands tid pair w v ws p e c peeks u h = ground arith

-- What the futures get when completions go to them in the order in which they queued.
abbrev pub in_order : List Waiter → List (ℕ × ℤ) → List (ℕ × Settled) → List (ℕ × Settled)
in_order ws [] log = log
in_order [] (p ∷ ps) log = log
in_order (w ∷ ws) (p ∷ ps) log = in_order ws ps ((w.fut, result p) ∷ log)

abbrev pub AllPending : List Waiter → Type 0
AllPending [] = Unit
AllPending (w ∷ ws) = (w.is_done ≡ false) × AllPending ws

-- The answers of liburing when these completions are ready and no more.
abbrev pub ready : List (ℕ × ℤ) → List Peek
ready [] = no_cqe ∷ []
ready ((tag, res) ∷ ps) = peeked tag res ∷ ready ps

abbrev reaped : ℕ → UringCtx → UringCtx
reaped tag c =
    Async.completion_release_async_io_buffer tag
      (record c { inflight = Async.settle tag c.inflight })

peek_one :
    (tid tag : ℕ) (res : ℤ) (c : UringCtx)
    → State.ensure_open tid c ≡ (ok tt, c)
    → Async.peek_completion tid (peeked tag res) c ≡ (ok (some (tag, res)), reaped tag c)
unfolding Async.peek_completion
peek_one tid tag res c o = ground arith

reaped-open :
    (tid tag : ℕ) (c : UringCtx)
    → State.ensure_open tid c ≡ (ok tt, c)
    → State.ensure_open tid (reaped tag c) ≡ (ok tt, reaped tag c)
unfolding State.ensure_open Async.completion_release_async_io_buffer
reaped-open tid tag c o = ground arith

peek_none :
    (tid : ℕ) (c : UringCtx)
    → State.ensure_open tid c ≡ (ok tt, c)
    → Async.peek_completion tid no_cqe c ≡ (ok none, c)
unfolding Async.peek_completion
peek_none tid c o = ground arith

-- With every waiter still pending, the completions that are ready go to the waiters one by one, in
-- the order of the queue, and the waiters behind them stay.
pub peek_chain_order :
    (tid : ℕ) (ws : List Waiter) (ps : List (ℕ × ℤ)) (c : UringCtx) (log : List (ℕ × Settled))
    → State.ensure_open tid c ≡ (ok tt, c)
    → AllPending ws
    → let q = peek_chain tid ws (ready ps) c log in
      (q.0 ≡ ok tt) × (q.1 ≡ drop (length ps) ws) × (q.3 ≡ in_order ws ps log)
unfolding peek_chain
peek_chain_order tid [] [] c log o a = (refl, refl, refl)
peek_chain_order tid [] (p ∷ ps) c log o a = (refl, refl, refl)
peek_chain_order tid (w ∷ ws) [] c log o a = ground (arith, peek_none tid c o)
peek_chain_order tid (w ∷ ws) ((tag, res) ∷ ps) c log o a =
    let log' = (w.fut, result (tag, res)) ∷ log in
    let one = peek_one tid tag res c o in
    let rest = peek_chain_order tid ws ps (reaped tag c) log' (reaped-open tid tag c o) a.1 in
    ground (arith, one, rest, a.0)
