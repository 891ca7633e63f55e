-- ===== src/Aio/Waiters.antt =====
-- `_reader_active` of pyuring/aio.py is set exactly when somebody waits.
use pyuring.Aio.State.{
  result, settle_one, deliver_peek_chain, bind_loop, ensure_ctx_open, remove_waiter, mark_done,
  hand_out, fail_all, Waiter, close, init, arm_reader, UringAsync, on_readable, remove_reader,
  cancel_task, wait_completion, on_cancelled,
}
use Prim.Native.Nat.{ℕ}
use pyuring.Prelude.{
  ℤ, Option, ◌⊎◌, true, refl, some, ◌∷◌, false, [], ◌≡◌, Bool, arith, ◌++◌, List, ℕ,
}
use pyuring.Ctx.State.{UringCtx}
use pyuring.Ctx.State
use pyuring.Errors.{Exception, ok}
use pyuring.Ctx.Async.{Peek, Wait}
use mathlib.Core.Option.{none}

abbrev pub any {ℓ} : {A : Type ℓ} → List A → Bool
any [] = false
any (x ∷ xs) = true

abbrev pub is_bound : Option ℕ → Bool
is_bound none = false
is_bound (some l) = true

-- `_reader_active` is set exactly when the queue is not empty; who waits has bound a loop; and a closed
-- object has an empty queue.
pub record IsArmed (u : UringAsync) : Type 0 where
  pub armed : u.reader_active ≡ any u.waiters
  pub bound : (u.waiters ≡ []) ⊎ (is_bound u.loop ≡ true)
  pub shut : (u.closed ≡ false) ⊎ (u.waiters ≡ [])

pub init-IsArmed : (c : UringCtx) (u : UringAsync) → init c ≡ ok u → IsArmed u
unfolding init
init-IsArmed c u h = ground arith

remove_reader_lem :
    (tid : ℕ) (u : UringAsync)
    → IsArmed u
    → ((remove_reader tid u).reader_active ≡ false)
      × ((remove_reader tid u).waiters ≡ u.waiters)
      × ((remove_reader tid u).closed ≡ u.closed)
      × ((remove_reader tid u).loop ≡ u.loop)
      × ((remove_reader tid u).ctx ≡ u.ctx)
unfolding remove_reader
remove_reader_lem tid u a = ground arith

-- After `_arm_reader` returns, an open object with a bound loop and no reader has one if it needs it.
arm_reader-armed :
    (tid l : ℕ) (u : UringAsync)
    → u.closed ≡ false
    → u.reader_active ≡ false
    → u.loop ≡ some l
    → (arm_reader tid u).0 ≡ ok tt
    → ((arm_reader tid u).1.reader_active ≡ any u.waiters)
      × ((arm_reader tid u).1.waiters ≡ u.waiters)
unfolding arm_reader
arm_reader-armed tid l u c r b h = ground arith

any-append : {A : Type 0} (xs : List A) (x : A) → any (xs ++ x ∷ []) ≡ true
any-append [] x = refl
any-append (y ∷ xs) x = refl

remove_waiter-cancel : (fut : ℕ) (ws : List Waiter) → any ws ≡ false → remove_waiter fut ws ≡ []
remove_waiter-cancel fut [] h = refl
remove_waiter-cancel fut (w ∷ ws) h = cc

any-mark_done : (fut : ℕ) (ws : List Waiter) → any (mark_done fut ws) ≡ any ws
any-mark_done fut [] = refl
any-mark_done fut (w ∷ ws) = ground arith

pub cancel_task-IsArmed : (fut : ℕ) (u : UringAsync) → IsArmed u → IsArmed (cancel_task fut u)
unfolding cancel_task
cancel_task-IsArmed fut u a = ground (arith, any-mark_done fut u.waiters)

pub on_cancelled-IsArmed :
    (tid fut : ℕ) (u : UringAsync) → IsArmed u → IsArmed (on_cancelled tid fut u)
unfolding on_cancelled
on_cancelled-IsArmed tid fut u a = ground (arith, remove_waiter-cancel fut u.waiters)

pub close-IsArmed : (tid : ℕ) (u : UringAsync) → IsArmed u → IsArmed (close tid u)
unfolding close
close-IsArmed tid u a = ground arith

-- `wait_completion` keeps the invariant, whether it queues a waiter or raises, when its thread may use
-- the ring.
wait_completion-IsArmed :
    (tid l : ℕ) (u : UringAsync)
    → IsArmed u
    → State.ensure_open tid u.ctx ≡ (ok tt, u.ctx)
    → IsArmed (wait_completion tid l u).1
unfolding wait_completion arm_reader ensure_ctx_open bind_loop
wait_completion-IsArmed tid l u a o =
    ground (arith, any-append u.waiters (record { fut = u.next_fut; is_done = false }))

peek_chain-tail :
    (tid : ℕ) (peeks : List Peek) (u : UringAsync)
    → (deliver_peek_chain tid peeks u).1.closed ≡ u.closed
      × (deliver_peek_chain tid peeks u).1.loop ≡ u.loop
      × (deliver_peek_chain tid peeks u).1.reader_active ≡ u.reader_active
unfolding deliver_peek_chain
peek_chain-tail tid peeks u = (refl, refl, refl)

arm_reader-IsArmed :
    (tid : ℕ) (u : UringAsync)
    → u.closed ≡ false
    → u.reader_active ≡ false
    → is_bound u.loop ≡ true
    → (arm_reader tid u).0 ≡ ok tt
    → IsArmed (arm_reader tid u).1
unfolding arm_reader
arm_reader-IsArmed tid u c r b h = ground arith

hand_out-IsArmed :
    (tid : ℕ) (pair : ℕ × ℤ) (w : Waiter) (ws : List Waiter) (peeks : List Peek) (u : UringAsync)
    → u.closed ≡ false
    → u.reader_active ≡ false
    → is_bound u.loop ≡ true
    → (hand_out tid pair w ws peeks u).0 ≡ ok tt
    → IsArmed (hand_out tid pair w ws peeks u).1
unfolding hand_out
hand_out-IsArmed tid pair w ws peeks u c r b h =
    let v = record u { waiters = ws; settled = settle_one (result pair) w u.settled } in
    ground (
      arith,
      peek_chain-tail tid peeks v,
      arm_reader-IsArmed tid (deliver_peek_chain tid peeks v).1,
    )

fail_all-IsArmed :
    (tid : ℕ) (e : Exception) (u : UringAsync)
    → u.reader_active ≡ false
    → IsArmed (fail_all tid e u)
unfolding fail_all remove_reader
fail_all-IsArmed tid e u r = ground arith

remove_reader-in_loop :
    (tid : ℕ) (u : UringAsync)
    → IsArmed u
    → State.ensure_open tid u.ctx ≡ (ok tt, u.ctx)
    → u.in_loop ≡ u.reader_active
    → (remove_reader tid u).in_loop ≡ false
unfolding remove_reader
remove_reader-in_loop tid u a o h = ground arith

hand_out-in_loop :
    (tid : ℕ) (pair : ℕ × ℤ) (w : Waiter) (ws : List Waiter) (peeks : List Peek) (u : UringAsync)
    → u.closed ≡ false
    → u.reader_active ≡ false
    → u.in_loop ≡ false
    → is_bound u.loop ≡ true
    → (hand_out tid pair w ws peeks u).0 ≡ ok tt
    → (hand_out tid pair w ws peeks u).1.in_loop ≡ any (hand_out tid pair w ws peeks u).1.waiters
unfolding hand_out deliver_peek_chain arm_reader
hand_out-in_loop tid pair w ws peeks u c r n b h = ground arith

fail_all-in_loop :
    (tid : ℕ) (e : Exception) (u : UringAsync)
    → u.reader_active ≡ false
    → u.in_loop ≡ false
    → ((fail_all tid e u).in_loop ≡ false) × ((fail_all tid e u).waiters ≡ [])
unfolding fail_all remove_reader
fail_all-in_loop tid e u r n = ground arith

-- On a ring that its thread may use, when the loop has its reader exactly as `_reader_active` tells and
-- this as the invariant has it: a callback that does not raise leaves the loop with the reader exactly
-- when a waiter is left.
pub on_readable-in_loop :
    (tid : ℕ) (w : Wait) (peeks : List Peek) (u : UringAsync)
    → IsArmed u
    → State.ensure_open tid u.ctx ≡ (ok tt, u.ctx)
    → u.in_loop ≡ u.reader_active
    → (on_readable tid w peeks u).0 ≡ ok tt
    → (on_readable tid w peeks u).1.in_loop ≡ any (on_readable tid w peeks u).1.waiters
unfolding on_readable ensure_ctx_open
on_readable-in_loop tid wait peeks u a o n h = grind (
  arith,
  remove_reader_lem tid u a,
  remove_reader-in_loop tid u a o n,
  fail_all-in_loop,
  hand_out-in_loop,
)

-- A callback of the loop that does not raise leaves `_reader_active` set exactly when a waiter is left,
-- whatever the ring answered: completions, an error, or a closed ring.
pub on_readable-IsArmed :
    (tid : ℕ) (w : Wait) (peeks : List Peek) (u : UringAsync)
    → IsArmed u
    → (on_readable tid w peeks u).0 ≡ ok tt
    → IsArmed (on_readable tid w peeks u).1
unfolding on_readable ensure_ctx_open
on_readable-IsArmed tid wait peeks u a h =
    grind (arith, remove_reader_lem tid u a, fail_all-IsArmed, hand_out-IsArmed)
