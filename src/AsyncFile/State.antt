-- ===== src/AsyncFile/State.antt =====
-- The class `AsyncFile` of pyuring/async_file.py: its state, opening and closing. What the operating
-- system and the executor answer is an argument.
use pyuring.Errno
use pyuring.Prelude.{
  [], ◌∷◌, suc, ℕ, String, Bool, true, false, ◌||◌, Option, none, some, List, bit_and, ◌==◌,
  if◌then◌else◌,
}
use pyuring.Errors.{
  Exception, Result, Action, ok, err, uring_error, value_error, runtime_error, pure, raise, modify,
  ◌>>=◌, ◌>>◌,
}
use pyuring.Ctx.State
use pyuring.Ctx.State.{UringCtx, CreateReply, default_args, init, CreateCall}
use pyuring.AsyncFile.Mode.{mode_to_flags, o_append, normalize_mode, mode, refused}

-- `_probe_io_uring`'s errno list.
abbrev pub unavailable : ℕ → Bool
unavailable e =
    e == Errno.eperm
    || (e == Errno.eacces
        || (e == Errno.einval
            || (e == Errno.eopnotsupp || (e == Errno.enosys || e == Errno.enodev))))

abbrev probed : Result UringCtx → Action (Option Bool) Bool
probed (ok c) = modify (λ _. some true) >> pure true
probed (err (uring_error e)) =
    if unavailable e.errno then (modify (λ _. some false) >> pure false) else raise (uring_error e)
probed (err x) = raise x

-- `_probe_io_uring`. The state is `_URING_AVAILABLE`; the ring that was made is closed at once.
unfoldable pub probe_io_uring : (CreateCall → CreateReply) → ℕ → Action (Option Bool) Bool
unfolding init
probe_io_uring create tid cached = elim cached [
  | some b ↦ pure b (some b)
  | none ↦ probed (init create tid (record default_args { entries = 8 })) none
]

-- `fp` is the handle of `builtins.open`; `has_ua` and `has_lock` say that `_ua` and `_lock` are set;
-- `next_ud` is the next value of `_ud`. `closed_rings` and `closed_asyncs` record what was closed: the
-- rings, as `UringCtx.close` leaves them, and how many `UringAsync`.
pub record AsyncFile : Type 0 where
  pub path : String
  pub flags : ℕ
  pub prefer_uring : Bool
  pub use_uring : Bool
  pub fd : Option ℕ
  pub fp : Option ℕ
  pub ring : Option UringCtx
  pub has_ua : Bool
  pub pos : ℕ
  pub next_ud : ℕ
  pub closed : Bool
  pub has_lock : Bool
  pub closed_rings : List UringCtx
  pub closed_asyncs : ℕ

-- `AsyncFile.__init__`
unfoldable pub new : (ℕ → Bool) → String → List ℕ → Bool → Result AsyncFile
new space path text prefer_uring = elim (normalize_mode space text) [
  | refused r ↦ err value_error
  | mode m ↦ elim (mode_to_flags m) [
    | err e ↦ err e
    | ok flags ↦ ok (record {
      path = path;
      flags = flags;
      prefer_uring = prefer_uring;
      use_uring = false;
      fd = none;
      fp = none;
      ring = none;
      has_ua = false;
      pos = 0;
      next_ud = 1;
      closed = true;
      has_lock = false;
      closed_rings = [];
      closed_asyncs = 0;
    })
  ]
]

-- The answers to one `__aenter__`: whether the probe finds io_uring, `os.open`, `UringCtx(…)`,
-- `os.lseek` to the end, and `builtins.open`.
pub record Answers : Type 0 where
  pub probe : Result Bool
  pub os_open : Result ℕ
  pub create : Result UringCtx
  pub lseek : Result ℕ
  pub builtin_open : Result ℕ

-- `except UringError`: the descriptor is closed, and the threaded path is taken.
abbrev fall_back : Action AsyncFile (Unit {0})
fall_back = modify (λ f. record f { fd = none; ring = none; has_ua = false; use_uring = false })

abbrev on_failure : Exception → Action AsyncFile (Unit {0})
on_failure (uring_error e) = fall_back
on_failure x = raise x

abbrev set_position : Result ℕ → Action AsyncFile (Unit {0})
set_position end f = elim (bit_and f.flags o_append == 0) [
  | true ↦ (ok tt, record f { pos = 0 })
  | false ↦ elim end [ ok p ↦ (ok tt, record f { pos = p }) | err e ↦ on_failure e f ]
]

-- The second `try` of `__aenter__`.
abbrev start_ring : Answers → Action AsyncFile (Unit {0})
start_ring a f = elim a.create [
  | err e ↦ on_failure e f
  | ok c ↦ set_position a.lseek (record f { ring = some c; has_ua = true; use_uring = true })
]

abbrev open_uring : Answers → Action AsyncFile (Unit {0})
open_uring a f = elim a.os_open [
  | err e ↦ raise e f
  | ok fd ↦ start_ring a (record f { fd = some fd })
]

abbrev open_builtin : Answers → Action AsyncFile (Unit {0})
open_builtin a f = elim a.builtin_open [
  | err e ↦ raise e f
  | ok fp ↦ (ok tt, record f { fp = some fp; fd = none; pos = 0 })
]

-- The first call in `self._prefer_uring and _probe_io_uring()` decides whether the second is made.
abbrev decide : Answers → Action AsyncFile Bool
decide a f = elim f.prefer_uring [ true ↦ (a.probe, f) | false ↦ (ok false, f) ]

abbrev unless_uring : Action AsyncFile (Unit {0}) → Action AsyncFile (Unit {0})
unless_uring m f = elim f.use_uring [ true ↦ (ok tt, f) | false ↦ m f ]

abbrev when_true : Bool → Action AsyncFile (Unit {0}) → Action AsyncFile (Unit {0})
when_true true m f = m f
when_true false m f = (ok tt, f)

-- `__aenter__`
unfoldable pub aenter : Answers → Action AsyncFile (Unit {0})
aenter a = do
  modify (λ f. record f { has_lock = true })
  use_ring ← decide a
  when_true use_ring (open_uring a)
  unless_uring (open_builtin a)
  modify (λ f. record f { closed = false })

-- `_ensure_open`
unfoldable pub ensure_open : Action AsyncFile (Unit {0})
ensure_open f = elim f.has_lock [
  | false ↦ (err runtime_error, f)
  | true ↦ elim f.closed [ true ↦ (err value_error, f) | false ↦ (ok tt, f) ]
]

abbrev drop_fp : Result (Unit {0}) → Action AsyncFile (Unit {0})
drop_fp answer f = elim f.fp [ none ↦ (ok tt, f) | some fp ↦ (answer, record f { fp = none }) ]

abbrev drop_fd : Result (Unit {0}) → Action AsyncFile (Unit {0})
drop_fd answer f = elim f.fd [ none ↦ (ok tt, f) | some fd ↦ (answer, record f { fd = none }) ]

abbrev drop_ua : AsyncFile → AsyncFile
drop_ua f = elim f.has_ua [
  | true ↦ record f { has_ua = false; closed_asyncs = suc f.closed_asyncs }
  | false ↦ f
]

abbrev drop_ring : AsyncFile → AsyncFile
drop_ring f = elim f.ring [
  | none ↦ f
  | some c ↦ record f { ring = none; closed_rings = State.close c ∷ f.closed_rings }
]

-- `_aclose_unlocked`; the arguments are the answers of `os.close` and of the file's `close`. The
-- ring and the `UringAsync` are closed, which cannot fail.
unfoldable pub aclose_unlocked : Result (Unit {0}) → Result (Unit {0}) → Action AsyncFile (Unit {0})
aclose_unlocked close_fd close_fp f = elim f.closed [
  | true ↦ (ok tt, f)
  | false ↦
      (drop_fd close_fd >> drop_fp close_fp) (drop_ring (drop_ua (record f { closed = true })))
]

-- `aclose`, and `__aexit__`
unfoldable pub aclose : Result (Unit {0}) → Result (Unit {0}) → Action AsyncFile (Unit {0})
unfolding aclose_unlocked
aclose close_fd close_fp f = elim f.closed [
  | true ↦ (ok tt, f)
  | false ↦ aclose_unlocked close_fd close_fp f
]
