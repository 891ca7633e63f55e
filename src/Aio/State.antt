-- ===== src/Aio/State.antt =====
-- `UringAsync` of pyuring/aio.py. Callbacks of the event loop run one at a time, in the thread
-- `tid`; what liburing answers is an argument.
use pyuring.Errno
use pyuring.Prelude.{
  ℕ, suc, String, Bool, true, false, Option, none, some, List, [], ◌∷◌, ◌++◌, ℤ, pos, ◌==◌,
}
use pyuring.Errors.{
  Exception, Result, Action, ok, err, uring_error, make_error, runtime_error, pure, ◌>>=◌, ◌>>◌,
}
use pyuring.Ctx.State.{UringCtx}
use pyuring.Ctx.State
use pyuring.Ctx.Async.{Wait, Peek, no_cqe}
use pyuring.Ctx.Async

-- A future in the queue: its identity, and `fut.done()`. A task that is cancelled makes its future
-- done at once, and takes it out of the queue only when it runs next.
pub record Waiter : Type 0 where
  pub fut : ℕ
  pub is_done : Bool

-- How a future ended.
pub data Settled : Type 0 where
  result : ℕ × ℤ → Settled
  exception : Exception → Settled
  cancelled : Settled

-- `settled` is the log of `set_result`, `set_exception` and `cancel`, newest first; `next_fut` is the
-- identity of the next future. `in_loop` is whether the event loop has a
-- reader for the ring, which `reader_active` is to tell.
pub record UringAsync : Type 0 where
  pub ctx : UringCtx
  pub waiters : List Waiter
  pub reader_active : Bool
  pub in_loop : Bool
  pub loop : Option ℕ
  pub closed : Bool
  pub settled : List (ℕ × Settled)
  pub next_fut : ℕ

abbrev pub state_error : String → Exception
state_error detail = uring_error (
    make_error (pos Errno.einval) "UringAsync"
      (record { detail = some detail; filename = none; at_offset = none; of_length = none }))

-- `UringAsync.__init__`
unfoldable pub init : UringCtx → Result UringAsync
init c = elim c.handle [
  | none ↦ err (state_error "UringCtx is already closed")
  | some h ↦ ok (record {
    ctx = c;
    waiters = [];
    reader_active = false;
    in_loop = false;
    loop = none;
    closed = false;
    settled = [];
    next_fut = 0;
  })
]

-- `_ensure_ctx_open`
unfoldable pub ensure_ctx_open : Action UringAsync (Unit {0})
ensure_ctx_open u = elim u.closed [
  | true ↦ (err (state_error "UringAsync is closed"), u)
  | false ↦ elim u.ctx.handle [
    | none ↦ (err (state_error "UringCtx is closed"), u)
    | some h ↦ (ok tt, u)
  ]
]

-- `_bind_loop`
unfoldable pub bind_loop : ℕ → Action UringAsync (Unit {0})
bind_loop l u = elim u.loop [
  | none ↦ (ok tt, record u { loop = some l })
  | some bound ↦ elim (bound == l) [ true ↦ (ok tt, u) | false ↦ (err runtime_error, u) ]
]

-- Whether the loop still has its reader after `remove_reader(self.ring_fd)`: `ring_fd` raises on a
-- ring that is closed or another thread's, before the loop is called.
abbrev pub keeps_reader : ℕ → UringAsync → Bool
keeps_reader tid u = elim (State.ensure_open tid u.ctx).0 [ err e ↦ u.in_loop | ok x ↦ false ]

-- `_remove_reader`; what `ring_fd` or the loop raise is dropped, and the flag is cleared all the same.
unfoldable pub remove_reader : ℕ → UringAsync → UringAsync
remove_reader tid u = elim u.reader_active [
  | false ↦ u
  | true ↦ elim u.loop [
    | none ↦ u
    | some l ↦ record u { reader_active = false; in_loop = keeps_reader tid u }
  ]
]

-- `if not fut.done(): …`
abbrev pub settle_one : Settled → Waiter → List (ℕ × Settled) → List (ℕ × Settled)
settle_one s w log = elim w.is_done [ true ↦ log | false ↦ (w.fut, s) ∷ log ]

abbrev pub settle_all : Settled → List Waiter → List (ℕ × Settled) → List (ℕ × Settled)
settle_all s [] log = log
settle_all s (w ∷ ws) log = settle_all s ws (settle_one s w log)

-- `_fail_all`
unfoldable pub fail_all : ℕ → Exception → UringAsync → UringAsync
unfolding remove_reader
fail_all tid e u =
    remove_reader tid
      (record u { waiters = []; settled = settle_all (exception e) u.waiters u.settled })

-- The loop of `_deliver_peek_chain` over the queue, with the answers of liburing in order; past
-- their end there is no completion.
unfoldable pub peek_chain :
    ℕ
    → List Waiter
    → List Peek
    → UringCtx
    → List (ℕ × Settled)
    → Result (Unit {0}) × List Waiter × UringCtx × List (ℕ × Settled)
peek_chain tid [] peeks c log = (ok tt, [], c, log)
peek_chain tid (w ∷ ws) [] c log = (ok tt, w ∷ ws, c, log)
peek_chain tid (w ∷ ws) (p ∷ peeks) c log =
    let (r, c') = Async.peek_completion tid p c in
    elim r [
      | err e ↦ (err e, w ∷ ws, c', log)
      | ok found ↦ elim found [
        | none ↦ (ok tt, w ∷ ws, c', log)
        | some pair ↦ peek_chain tid ws peeks c' (settle_one (result pair) w log)
      ]
    ]

-- `_deliver_peek_chain`
unfoldable pub deliver_peek_chain : ℕ → List Peek → Action UringAsync (Unit {0})
deliver_peek_chain tid peeks u =
    let (r, ws, c, log) = peek_chain tid u.waiters peeks u.ctx u.settled in
    (r, record u { waiters = ws; ctx = c; settled = log })

-- `add_reader(self.ring_fd, …)`: `ring_fd` raises on a ring that is closed or another thread's.
abbrev pub add_reader : ℕ → Action UringAsync (Unit {0})
add_reader tid u = elim (State.ensure_open tid u.ctx).0 [
  | err e ↦ (err e, u)
  | ok x ↦ (ok tt, record u { reader_active = true; in_loop = true })
]

-- `_arm_reader`
unfoldable pub arm_reader : ℕ → Action UringAsync (Unit {0})
arm_reader tid u = elim u.closed [
  | true ↦ (ok tt, u)
  | false ↦ elim u.waiters [
    | [] ↦ (ok tt, u)
    | w ∷ ws ↦ elim u.reader_active [
      | true ↦ (ok tt, u)
      | false ↦ elim u.loop [ none ↦ (ok tt, u) | some l ↦ add_reader tid u ]
    ]
  ]
]

-- The part of `_on_readable` behind a completion that was waited for.
unfoldable pub hand_out :
    ℕ → ℕ × ℤ → Waiter → List Waiter → List Peek → Action UringAsync (Unit {0})
unfolding deliver_peek_chain
hand_out tid pair w ws peeks u =
    (deliver_peek_chain tid peeks >> arm_reader tid)
      (record u { waiters = ws; settled = settle_one (result pair) w u.settled })

-- `_on_readable`, the callback of the loop.
unfoldable pub on_readable : ℕ → Wait → List Peek → Action UringAsync (Unit {0})
unfolding ensure_ctx_open
on_readable tid wait peeks u₀ =
    let u = remove_reader tid u₀ in
    let (guard, u₁) = ensure_ctx_open u in
    elim guard [
      | err e ↦ (ok tt, fail_all tid e u)
      | ok x ↦ elim u.waiters [
        | [] ↦ (ok tt, u)
        | w ∷ ws ↦
            let (r, c) = Async.wait_completion tid wait u.ctx in
            elim r [
              | err e ↦ (ok tt, fail_all tid e (record u { ctx = c }))
              | ok pair ↦ hand_out tid pair w ws peeks (record u { ctx = c })
            ]
      ]
    ]

-- `wait_completion` up to its `await`, in the loop `l`; it gives the future.
unfoldable pub wait_completion : ℕ → ℕ → Action UringAsync ℕ
unfolding ensure_ctx_open bind_loop
wait_completion tid l = do
  ensure_ctx_open
  bind_loop l
  fut ← (λ u. (
    ok u.next_fut,
    record u {
      next_fut = suc u.next_fut;
      waiters = u.waiters ++ record { fut = u.next_fut; is_done = false } ∷ [];
    },
  ))
  arm_reader tid
  pure fut

-- `fut.cancel()` by the loop, when the task that awaits `fut` is cancelled.
abbrev pub mark_done : ℕ → List Waiter → List Waiter
mark_done fut [] = []
mark_done fut (w ∷ ws) = elim (w.fut == fut) [
  | true ↦ record w { is_done = true } ∷ ws
  | false ↦ w ∷ mark_done fut ws
]

unfoldable pub cancel_task : ℕ → UringAsync → UringAsync
cancel_task fut u = record u { waiters = mark_done fut u.waiters }

-- `self._waiters.remove(fut)`, without a `ValueError` when it is gone.
abbrev pub remove_waiter : ℕ → List Waiter → List Waiter
remove_waiter fut [] = []
remove_waiter fut (w ∷ ws) = elim (w.fut == fut) [ true ↦ ws | false ↦ w ∷ remove_waiter fut ws ]

-- The handler of `CancelledError` in `wait_completion`.
unfoldable pub on_cancelled : ℕ → ℕ → UringAsync → UringAsync
unfolding remove_reader
on_cancelled tid fut u = elim (remove_waiter fut u.waiters) [
  | [] ↦ remove_reader tid (record u { waiters = [] })
  | w ∷ ws ↦ record u { waiters = w ∷ ws }
]

-- `close`
unfoldable pub close : ℕ → UringAsync → UringAsync
unfolding remove_reader
close tid u = elim u.closed [
  | true ↦ u
  | false ↦
      let v = remove_reader tid (record u { closed = true }) in
      record v { waiters = []; settled = settle_all cancelled v.waiters v.settled }
]
