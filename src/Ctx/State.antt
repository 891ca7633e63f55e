-- ===== src/Ctx/State.antt =====
-- The state of a `UringCtx`, its construction, its guards and `close`.
use pyuring.Errno
use pyuring.Prelude.{
  ℕ, ◌-◌, ◌%◌, ◌^◌, ◌+◌, Bool, true, Option, none, some, List, [], ◌∷◌, ℤ, pos, negsuc, ◌==◌,
  if◌then◌else◌,
}
use pyuring.Errors.{Exception, Result, Action, ok, err, uring_error, make_error, pure, raise}

-- The memory of an operation: a Python object, by its identity, or a raw pointer.
pub data Memory : Type 0 where
  object pointer : ℕ → Memory

pub data Kind : Type 0 where
  reads writes splices accepts : Kind

-- An entry that the C code prepared in the submission queue and whose completion was not reaped.
pub record Op : Type 0 where
  pub kind : Kind
  pub memory : Memory
  pub len : ℕ
  pub offset : ℕ
  pub tag : ℕ

-- `handle` is `_ctx`, `owner` is `_owner_thread_id`, `keepalive` is `_async_io_keepalive` and
-- `buffer_keepalive` holds the objects of the registered buffers. `fresh` is the identity of the
-- next new object. `inflight` and `destroyed` are the native side: the prepared entries, and the
-- handles that went to `uring_destroy`.
pub record UringCtx : Type 0 where
  pub handle : Option ℕ
  pub owner : Option ℕ
  pub keepalive : List (ℕ × ℕ)
  pub buffer_keepalive : List ℕ
  pub fresh : ℕ
  pub inflight : List Op
  pub destroyed : List ℕ

abbrev pub u32_mod : ℕ
u32_mod = 2 ^ 32

abbrev pub u64_mod : ℕ
u64_mod = 2 ^ 64

-- `int(x) & 0xFFFFFFFF`, on Python's two's complement.
unfoldable pub mask32 : ℤ → ℕ
mask32 (pos n) = n % u32_mod
mask32 (negsuc n) = u32_mod - 1 - n % u32_mod

abbrev pub setup_sqpoll : ℕ
setup_sqpoll = 2 ^ 1

abbrev pub setup_single_issuer : ℕ
setup_single_issuer = 2 ^ 12

abbrev pub setup_defer_taskrun : ℕ
setup_defer_taskrun = 2 ^ 13

-- The arguments of `UringCtx(...)` behind the library's path.
pub record CtxArgs : Type 0 where
  pub entries : ℕ
  pub setup_flags : ℤ
  pub sq_thread_cpu : ℤ
  pub sq_thread_idle : ℤ
  pub single_thread_check : Bool

abbrev pub default_args : CtxArgs
default_args = record {
  entries = 64;
  setup_flags = pos 0;
  sq_thread_cpu = negsuc 0;
  sq_thread_idle = pos 0;
  single_thread_check = true;
}

-- What `uring_create_ex` gets.
pub record CreateCall : Type 0 where
  pub entries : ℕ
  pub flags : ℕ
  pub cpu : ℤ
  pub idle : ℕ

-- A handle, or NULL with what `ctypes.get_errno()` says then.
pub data CreateReply : Type 0 where
  created : ℕ → CreateReply
  null : ℕ → CreateReply

abbrev pub create_call : CtxArgs → CreateCall
create_call a = record {
  entries = a.entries;
  flags = mask32 a.setup_flags;
  cpu = a.sq_thread_cpu;
  idle = mask32 a.sq_thread_idle;
}

abbrev pub create_failed : ℕ → Exception
create_failed e = uring_error (
    make_error (pos (if e == 0 then Errno.eopnotsupp else e)) "uring_create_ex" (record {
      detail = some "io_uring_queue_init_params failed (NULL return).";
      filename = none;
      at_offset = none;
      of_length = none;
    }))

abbrev pub new_ctx : ℕ → Option ℕ → UringCtx
new_ctx h owner = record {
  handle = some h;
  owner = owner;
  keepalive = [];
  buffer_keepalive = [];
  fresh = 0;
  inflight = [];
  destroyed = [];
}

-- `UringCtx.__init__`, in the thread `tid`. `create` is the answer of `uring_create_ex`.
unfoldable pub init : (CreateCall → CreateReply) → ℕ → CtxArgs → Result UringCtx
init create tid a = elim (create (create_call a)) [
  | created h ↦ ok (new_ctx h (if a.single_thread_check then some tid else none))
  | null e ↦ err (create_failed e)
]

-- `UringCtx.with_sqpoll`: 256 entries and an idle time of 2000 unless given.
unfoldable pub with_sqpoll : (CreateCall → CreateReply) → ℕ → ℕ → ℤ → ℤ → Bool → Result UringCtx
unfolding init
with_sqpoll create tid entries idle cpu check = init create tid (record {
  entries = entries;
  setup_flags = pos setup_sqpoll;
  sq_thread_cpu = cpu;
  sq_thread_idle = idle;
  single_thread_check = check;
})

-- `UringCtx.with_defer_taskrun`. The two flags share no bit, so their sum is their union.
unfoldable pub with_defer_taskrun : (CreateCall → CreateReply) → ℕ → ℕ → Bool → Result UringCtx
unfolding init
with_defer_taskrun create tid entries check = init create tid (record default_args {
  entries = entries;
  setup_flags = pos (setup_single_issuer + setup_defer_taskrun);
  single_thread_check = check;
})

abbrev pub closed_error : Exception
closed_error = uring_error (
    make_error (pos Errno.einval) "UringCtx" (record {
      detail =
          some "This UringCtx is closed; create a new instance or avoid using it after close().";
      filename = none;
      at_offset = none;
      of_length = none;
    }))

abbrev pub thread_error : Exception
thread_error = uring_error (
    make_error (pos Errno.einval) "UringCtx" (record {
      detail =
          some
            "UringCtx must be used from the thread that created it (construct with single_thread_check=False only if you serialize access yourself).";
      filename = none;
      at_offset = none;
      of_length = none;
    }))

abbrev check_owner : ℕ → Option ℕ → Action UringCtx (Unit {0})
check_owner tid none = pure tt
check_owner tid (some t) = if tid == t then pure tt else raise thread_error

-- `_ensure_open`, called in the thread `tid`.
unfoldable pub ensure_open : ℕ → Action UringCtx (Unit {0})
ensure_open tid c = elim c.handle [
  | none ↦ raise closed_error c
  | some h ↦ check_owner tid c.owner c
]

-- `_ring`: the handle goes to the native call that follows.
unfoldable pub ring : ℕ → Action UringCtx (Unit {0})
ring tid = ensure_open tid

-- `close`, which `__exit__` calls too.
unfoldable pub close : UringCtx → UringCtx
close c = record c {
  handle = none;
  owner = none;
  keepalive = [];
  buffer_keepalive = [];
  destroyed = elim c.handle [ none ↦ c.destroyed | some h ↦ h ∷ c.destroyed ];
}

-- `__enter__`
unfoldable pub enter : ℕ → Action UringCtx (Unit {0})
unfolding ensure_open
enter tid = ensure_open tid
