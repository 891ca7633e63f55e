-- ===== src/AsyncFile/Release.antt =====
-- Opening, falling back and closing of pyuring/async_file.py.
use pyuring.AsyncFile.State.{AsyncFile, Answers, aenter, aclose}
use pyuring.Prelude.{arith, some, ◌≢◌, bit_and, none, false, true, ◌≡◌, ℕ}
use Prim.Native.Nat.{bit_and, ℕ}
use pyuring.Errors.{os_error, uring_error, err, ok, UringError, Result}
use pyuring.Ctx.State as Ring
use pyuring.Ctx.State.{UringCtx}
use pyuring.AsyncFile.Mode.{o_append}

-- When the ring cannot be made the descriptor is given back and the file opens in the threaded way:
-- nothing of the io_uring path stays, and the position is 0.
aenter_falls_back :
    (a : Answers) (f : AsyncFile) (fd fp : ℕ) (e : UringError)
    → f.prefer_uring ≡ true
    → a.probe ≡ ok true
    → a.os_open ≡ ok fd
    → a.create ≡ err (uring_error e)
    → a.builtin_open ≡ ok fp
    → aenter a f ≡ (
      ok tt,
      record f {
        fd = none;
        ring = none;
        has_ua = false;
        use_uring = false;
        fp = some fp;
        pos = 0;
        closed = false;
        has_lock = true;
      },
    )
unfolding aenter
aenter_falls_back a f fd fp e h1 h2 h3 h4 h5 = ground arith

-- In an append mode an `OSError` of `os.lseek` (a pipe has no position) goes through `__aenter__`
-- with the descriptor and the ring open, and since the file still counts as closed, a later
-- `aclose` releases neither.
aenter_leaks :
    (a : Answers) (f : AsyncFile) (fd n : ℕ) (c : UringCtx) (x y : Result (Unit {0}))
    → f.prefer_uring ≡ true
    → f.closed ≡ true
    → bit_and f.flags o_append ≢ 0
    → a.probe ≡ ok true
    → a.os_open ≡ ok fd
    → a.create ≡ ok c
    → a.lseek ≡ err (os_error n)
    → let g = (aenter a f).1 in
      ((aenter a f).0 ≡ err (os_error n))
      × (g.fd ≡ some fd)
      × (g.ring ≡ some c)
      × (aclose x y g ≡ (ok tt, g))
unfolding aenter aclose
aenter_leaks a f fd n c x y h1 h2 h3 h4 h5 h6 h7 = ground arith
