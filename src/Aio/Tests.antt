-- ===== src/Aio/Tests.antt =====
-- `UringAsync` and `sendfile_splice` of pyuring/aio.py at concrete arguments.
use Prim.Native.Nat.{min}
use pyuring.Prelude.{
  ℕ, ◌-◌, min, ◌≡◌, refl, List, [], ◌∷◌, some, pos, ℤ, true, false, inr, inl, length, drop, arith,
}
use pyuring.Errors.{nowhere, make_error, uring_error, ok, err}
use pyuring.Ctx.State.{UringCtx, new_ctx}
use pyuring.Ctx.State
use pyuring.Ctx.Async.{accepted, cqe, peek_failed, no_cqe}
use pyuring.Ctx.Async
use pyuring.Aio.State.{
  remove_reader, arm_reader, UringAsync, Waiter, on_readable, wait_completion, hand_out, peek_chain,
}
use pyuring.Aio.Waiters.{on_readable-in_loop, any, IsArmed, on_readable-IsArmed}
use pyuring.Aio.Delivery.{peek_chain_order, ready, in_order}
use pyuring.Aio.Streams.{Kernel, returned, sendfile_splice}
use pyuring.Aio.Transfers.{Splices, left, sendfile_splice_lem}

abbrev ring : UringCtx
ring = new_ctx 7 (some 3)

ring-open : State.ensure_open 3 ring ≡ (ok tt, ring)
unfolding State.ensure_open
ring-open = refl

abbrev pending : ℕ → Waiter
pending n = record { fut = n; is_done = false }

abbrev cancelled_waiter : Waiter
cancelled_waiter = record { fut = 0; is_done = true }

-- Two waiters in the loop 1.
abbrev two_waiters : UringAsync
two_waiters = record {
  ctx = ring;
  waiters = pending 0 ∷ pending 1 ∷ [];
  reader_active = true;
  in_loop = true;
  loop = some 1;
  closed = false;
  settled = [];
  next_fut = 2;
}

two_waiters-IsArmed : IsArmed two_waiters
two_waiters-IsArmed = record { armed = refl; bound = inr refl; shut = inl refl }

delivered_once : (on_readable 3 (cqe 9 (pos 4)) (no_cqe ∷ []) two_waiters).0 ≡ ok tt
unfolding on_readable remove_reader Async.wait_completion State.ensure_open hand_out peek_chain
    Async.peek_completion arm_reader
delivered_once = refl

on_readable-IsArmed_example : IsArmed (on_readable 3 (cqe 9 (pos 4)) (no_cqe ∷ []) two_waiters).1
on_readable-IsArmed_example =
    on_readable-IsArmed 3 (cqe 9 (pos 4)) (no_cqe ∷ []) two_waiters two_waiters-IsArmed
      delivered_once

on_readable-in_loop_example :
    let v = (on_readable 3 (cqe 9 (pos 4)) (no_cqe ∷ []) two_waiters).1 in v.in_loop ≡ any v.waiters
on_readable-in_loop_example =
    on_readable-in_loop 3 (cqe 9 (pos 4)) (no_cqe ∷ []) two_waiters two_waiters-IsArmed ring-open
      refl delivered_once

abbrev one_ready : List (ℕ × ℤ)
one_ready = (9, pos 4) ∷ []

peek_chain_order_example :
    let q = peek_chain 3 two_waiters.waiters (ready one_ready) ring [] in
    (q.0 ≡ ok tt)
    × (q.1 ≡ drop (length one_ready) two_waiters.waiters)
    × (q.3 ≡ in_order two_waiters.waiters one_ready [])
peek_chain_order_example =
    peek_chain_order 3 two_waiters.waiters one_ready ring [] ring-open (refl, (refl, tt))

peek_fails :
    Async.peek_completion 3 (peek_failed 4) ring
    ≡ (err (uring_error (make_error (pos 5) "uring_peek_completion" nowhere)), ring)
unfolding Async.peek_completion State.ensure_open
peek_fails = refl

-- A file of 10 bytes, of which a splice takes as many as it can.
abbrev taken : ℕ → ℕ → ℕ → ℕ
taken k off n = min n (10 - off)

abbrev splicing : Kernel
splicing k off n = record { submission = accepted; completion = ok (9100, pos (taken k off n)) }

splicing-Splices : Splices 10 9100 splicing taken
splicing-Splices = record {
  answer = λ k off n. refl;
  fits = λ k off n. omega arith;
  moves = λ k off n p q. omega arith;
}

sendfile_splice_lem_example :
    (sendfile_splice 3 splicing 20 2 (some 5) 4 9100 ring).0 ≡ returned (left (some 5) 0 8)
sendfile_splice_lem_example =
    sendfile_splice_lem 3 10 9100 4 2 20 (some 5) splicing taken ring splicing-Splices (omega arith)
      (omega arith) (omega arith) ring-open (omega arith)
