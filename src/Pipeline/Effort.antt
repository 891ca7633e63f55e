-- ===== src/Pipeline/Effort.antt =====
-- csrc/uring_wrap.c, the loop of `uring_copy_path_dynamic`: how much is left to do, why a turn leaves the
-- loop, and what a turn has to come to.
use pyuring.Prelude.{
  ℕ, zero, suc, ◌+◌, ◌-◌, ◌*◌, ◌<◌, ◌≤◌, ◌≡◌, refl, ◌≢◌, true, false, ◌⊎◌, List, [], ◌∷◌, ◌++◌,
  arith, ℤ, negsuc, is_neg,
}
use pyuring.Pipeline.State.{Entry, Opcode, op_read, op_write, Turn, taken}
use pyuring.Errno.{eagain}
use pyuring.Pipeline.Copy.{Job, Copy, Trip, again, goto_out, blocked, cancels, ecanceled}
use pyuring.Pipeline.Invariant.{Inv}

-- A read in flight has its write to come.
abbrev pub weight : Opcode → ℕ
weight op_read = 2
weight op_write = 1

abbrev pub effort : List Entry → ℕ
effort [] = 0
effort (e ∷ es) = weight e.opcode + effort es

pub effort-append :
    (es : List Entry) (e : Entry) → effort (es ++ e ∷ []) ≡ effort es + weight e.opcode
effort-append [] e = omega arith
effort-append (f ∷ es) e = omega (arith, effort-append es e)

pub effort-taken :
    (i : ℕ) (e : Entry) (es : List Entry)
    → effort (e ∷ es) ≡ weight (taken i e es).0.opcode + effort (taken i e es).1
unfolding taken
effort-taken i e [] = refl
effort-taken zero e (f ∷ es) = refl
effort-taken (suc i) e (f ∷ es) = omega (arith, effort-taken i f es)

-- How many turns the loop can still take.
abbrev pub turns_left : Job → Copy → ℕ
turns_left job t = 2 * (job.file_size - t.next_off) + effort t.pending

-- Why a turn leaves the loop.
pub data Excuse (job : Job) (turn : Turn) (r : ℤ) (t : Copy) : Type 0 where
  wait_failed : r ≡ turn.wait → Excuse job turn r t
  transfer_failed : turn.errno ≢ 0 → r ≡ negsuc (turn.errno - 1) → Excuse job turn r t
  no_entry : turn.sqe ≡ false → r ≡ negsuc (eagain - 1) → Excuse job turn r t
  submit_failed : r ≡ turn.submit → Excuse job turn r t
  cancelled : cancels job t.copied ≡ true → r ≡ negsuc (ecanceled - 1) → Excuse job turn r t

-- No byte of the destination is wrong, and nothing is beyond the source.
pub record Correct (job : Job) (t : Copy) : Type 0 where
  pub clean : (i : ℕ) → (t.dst.bytes i ≡ 0) ⊎ (t.dst.bytes i ≡ job.content i)
  pub extent : t.dst.size ≤ job.file_size
  pub count : t.copied ≤ job.file_size

abbrev pub Good : Job → ℕ → Turn → ℕ → Trip → Type 0
Good job lost turn bound (again t) = Inv job lost t × (turns_left job t < bound)
Good job lost turn bound (goto_out r t) = (is_neg r ≡ true) × Excuse job turn r t × Correct job t
Good job lost turn bound blocked = Unit
