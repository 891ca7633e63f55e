-- ===== src/Aio/Streams.antt =====
-- The coroutines `sendfile_splice`, `iter_multishot_accept` and `wait_completion_in_executor` of
-- pyuring/aio.py. What their awaits of `UringAsync.wait_completion` give is an argument.
use pyuring.Errno
use pyuring.Prelude.{
  ℕ, zero, suc, ◌+◌, ◌-◌, min, Option, none, some, List, [], ◌∷◌, ℤ, pos, negsuc, ltb, ◌==◌,
  if◌then◌else◌,
}
use pyuring.Errors.{Action, Exception, Result, ok, err, uring_error, make_error, nowhere}
use pyuring.Ctx.State.{UringCtx, mask32}
use pyuring.Ctx.Async.{wait_completion, Wait, Submission, splice_submit}
use pyuring.Sync.Request.{call, Library}
use pyuring.Sync.Sockets.{multishot_accept_submit}

-- How far a coroutine came: it waits, it returned, or it raised.
pub data Progress (A : Type 0) : Type 0 where
  waiting : Progress A
  returned : A → Progress A
  raised : Exception → Progress A

-- The answers to the round `k` of the loop, a splice at `off` of `n` bytes, as C gets them: to
-- `splice_submit`, and to the await behind it.
pub record Answer : Type 0 where
  pub submission : Submission
  pub completion : Result (ℕ × ℤ)

abbrev pub Kernel : Type 0
Kernel = ℕ → ℕ → ℕ → Answer

-- `count is None or total < count`, and the length of the next splice.
unfoldable pub next_length : Option ℕ → ℕ → ℕ → Option ℕ
next_length none chunk total = some chunk
next_length (some count) chunk total =
    if ltb total count then some (min chunk (count - total)) else none

abbrev unexpected : Exception
unexpected = uring_error (
    make_error (pos Errno.einval) "sendfile_splice" (record {
      detail = some "unexpected user_data";
      filename = none;
      at_offset = none;
      of_length = none;
    }))

-- What a completion brings: the bytes of the round, or `none` for the `break`.
unfoldable pub received : ℕ → Result (ℕ × ℤ) → Result (Option ℕ)
received ud (err e) = err e
received ud (ok (tag, pos zero)) = if tag == ud then ok none else err unexpected
received ud (ok (tag, pos (suc n))) = if tag == ud then ok (some (suc n)) else err unexpected
received ud (ok (tag, negsuc n)) = if tag == ud then ok none else err unexpected

-- The loop with `fuel` rounds left.
unfoldable pub send_loop :
    ℕ → Kernel → Option ℕ → ℕ → ℕ → ℕ → ℕ → ℕ → UringCtx → Progress ℕ × UringCtx
send_loop tid kernel count chunk ud zero off total c = (waiting, c)
send_loop tid kernel count chunk ud (suc fuel) off total c =
    let again = send_loop tid kernel count chunk ud fuel in
    elim (next_length count chunk total) [
      | none ↦ (returned total, c)
      | some n ↦
          let a = kernel fuel off (mask32 (pos n)) in
          let (r, c') = splice_submit tid a.submission off (pos n) ud c in
          elim r [
            | err e ↦ (raised e, c')
            | ok ret ↦ elim (received ud a.completion) [
              | err e ↦ (raised e, c')
              | ok got ↦ elim got [
                | none ↦ (returned total, c')
                | some m ↦ again (off + m) (total + m) c'
              ]
            ]
          ]
    ]

-- `sendfile_splice`
unfoldable pub sendfile_splice :
    ℕ → Kernel → ℕ → ℕ → Option ℕ → ℕ → ℕ → UringCtx → Progress ℕ × UringCtx
unfolding send_loop
sendfile_splice tid kernel fuel offset count chunk ud =
    send_loop tid kernel count chunk ud fuel offset 0

-- `iter_multishot_accept` behind its submission: the descriptors that it yields for a sequence of
-- completions, and how it ends.
unfoldable pub accepts : ℕ → List (Result (ℕ × ℤ)) → List ℕ × Progress (Unit {0})
accepts ud [] = ([], waiting)
accepts ud (err e ∷ rs) = ([], raised e)
accepts ud (ok (tag, pos fd) ∷ rs) =
    let (fds, end) = accepts ud rs in if tag == ud then (fd ∷ fds, end) else (fds, end)
accepts ud (ok (tag, negsuc n) ∷ rs) =
    let (fds, end) = accepts ud rs in
    if tag == ud
    then ([], raised (uring_error (make_error (pos (suc n)) "iter_multishot_accept" nowhere)))
    else (fds, end)

abbrev submitted_then :
    {A : Type 0} → Result A → List ℕ × Progress (Unit {0}) → List ℕ × Progress (Unit {0})
submitted_then (err e) rest = ([], raised e)
submitted_then (ok v) rest = rest

-- `iter_multishot_accept`
unfoldable pub iter_multishot_accept :
    Library
    → ℕ
    → ℤ
    → ℤ
    → ℕ
    → List (Result (ℕ × ℤ))
    → UringCtx
    → (List ℕ × Progress (Unit {0})) × UringCtx
iter_multishot_accept lib tid listen_fd flags ud rs c =
    let (r, c') = call lib tid (ok (multishot_accept_submit listen_fd flags (pos ud))) c in
    (submitted_then r (accepts ud rs), c')

-- `wait_completion_in_executor`, whose call runs in the thread `worker`.
unfoldable pub wait_completion_in_executor : ℕ → Wait → Action UringCtx (ℕ × ℤ)
wait_completion_in_executor worker w = wait_completion worker w
