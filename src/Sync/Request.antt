-- ===== src/Sync/Request.antt =====
-- A synchronous method of pyuring/native/uring_ctx.py: the native call that it makes of its
-- arguments, the tests around it, and what it returns. The native functions are a parameter.
use pyuring.Errno
use pyuring.Prelude.{
  ◌-◌, suc, ◌||◌, ◌%◌, ℕ, String, Bool, false, not, Option, none, some, List, ◌∷◌, ℤ, pos, negsuc,
  max, ltb, ◌==◌, if◌then◌else◌,
}
use pyuring.Errors.{
  Result, Exception, Action, Where, nowhere, ok, err, value_error, type_error, other,
  raise_for_neg_errno, pure, raise, lift, ◌>>=◌, ◌>>◌,
}
use pyuring.Ctx.State.{UringCtx, ring, mask32, u64_mod}
use pyuring.Abi.Types.{find}
use pyuring.Abi.Convert.{Arg, handle, integer, memory, takes_all, pass_all, evaluates}
use pyuring.Abi.Agree.{signatures}

-- A bytes-like object: `len`, the bytes of its memory (more than `len` when an item has several),
-- and whether it is read-only, C-contiguous, a `bytes`.
pub record Buffer : Type 0 where
  pub len : ℕ
  pub nbytes : ℕ
  pub readonly : Bool
  pub contiguous : Bool
  pub is_bytes : Bool

-- What a method does with the result: nothing, return it, or return nothing though it is `-ETIME`.
pub data Gives : Type 0 where
  nothing the_result nothing_at_timeout : Gives

-- The native function, its arguments behind the handle, and what an error says of the call.
pub record Request : Type 0 where
  pub function : String
  pub args : List Arg
  pub place : Where
  pub gives : Gives

abbrev pub no_result : String → List Arg → Request
no_result f args = record { function = f; args = args; place = nowhere; gives = nothing }

abbrev pub int_result : String → List Arg → Request
int_result f args = record { function = f; args = args; place = nowhere; gives = the_result }

-- `int(x) & 0xFFFFFFFFFFFFFFFF`
unfoldable pub mask64 : ℤ → ℕ
mask64 (pos n) = n % u64_mod
mask64 (negsuc n) = u64_mod - 1 - n % u64_mod

abbrev pub masked32 : ℤ → Arg
masked32 n = integer (pos (mask32 n))

abbrev pub masked64 : ℤ → Arg
masked64 n = integer (pos (mask64 n))

abbrev pub size : ℕ → Arg
size n = integer (pos n)

-- `(ctypes.c_char * n).from_buffer(buf)`
abbrev pub from_buffer : ℕ → Buffer → Result Arg
from_buffer n buf =
    if buf.readonly || not buf.contiguous
    then err type_error
    else if ltb buf.nbytes n
    then err value_error
    else ok (memory n)

-- The request of what the method computed first, if that did not raise.
unfoldable pub request_of : {A : Type 0} → Result A → (A → Request) → Result Request
request_of (err e) f = err e
request_of (ok a) f = ok (f a)

-- A test that may raise, before the rest.
unfoldable pub unless : Option Exception → Result Request → Result Request
unless none r = r
unless (some e) r = err e

abbrev pub with_buffer : ℕ → Buffer → (Arg → Request) → Result Request
with_buffer n buf f = request_of (from_buffer n buf) f

-- `max(len(addr), addr_len)`
abbrev pub address_size : Buffer → ℤ → ℕ
address_size addr (pos n) = max addr.len n
address_size addr (negsuc n) = addr.len

-- What a native function returns, and what it wrote to its output arguments.
pub record Reply : Type 0 where
  pub ret : ℤ
  pub words : List ℤ

abbrev pub Library : Type 0
Library = String → List Arg → Reply

-- The call through ctypes, which raises its own `ArgumentError` for an argument that it refuses. A
-- name without `argtypes` is not among the methods'.
abbrev pub native_call : Library → Request → Result Reply
native_call lib r = elim (find r.function signatures) [
  | none ↦ err other
  | some ts ↦
      if takes_all ts (handle ∷ r.args)
      then ok (lib r.function (pass_all ts (handle ∷ r.args)))
      else err other
]

unfoldable pub dispatch : Library → Request → Result Reply
dispatch lib r = if evaluates r.args then native_call lib r else err type_error

abbrev pub is_etime : ℤ → Bool
is_etime (pos n) = false
is_etime (negsuc n) = suc n == Errno.etime

-- The test of the result. Only `timeout` lets `-ETIME` through.
unfoldable pub tested : Gives → String → Where → ℤ → Action UringCtx (Unit {0})
tested nothing name place ret = raise_for_neg_errno ret name place
tested the_result name place ret = raise_for_neg_errno ret name place
tested nothing_at_timeout name place ret =
    if is_etime ret then pure tt else raise_for_neg_errno ret name place

-- Every method passes the name of its native function as the operation of the error.
abbrev pub check : Request → ℤ → Action UringCtx (Unit {0})
check r ret = tested r.gives r.function r.place ret

abbrev pub given : Gives → ℤ → Option ℤ
given nothing ret = none
given the_result ret = some ret
given nothing_at_timeout ret = none

abbrev pub returned : Request → ℤ → Option ℤ
returned r ret = given r.gives ret

-- A method of which the request is made without an exception: the handle, the call and the test.
unfoldable pub perform : Library → ℕ → Request → Action UringCtx Reply
unfolding ring
perform lib tid r = do ring tid; reply ← lift (dispatch lib r); check r reply.ret; pure reply

unfoldable pub call : Library → ℕ → Result Request → Action UringCtx (Option ℤ)
call lib tid (err e) = raise e
call lib tid (ok r) = do reply ← perform lib tid r; pure (returned r reply.ret)
