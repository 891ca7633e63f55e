-- ===== src/AsyncFile/Device.antt =====
-- A device that serves a file, and one transfer of pyuring/async_file.py over it.
use pyuring.Prelude.{
  negsuc, ltb_ℤ, false, refl, arith, suc, true, ℕ, ◌+◌, ◌*◌, ◌-◌, ◌<◌, ◌≤◌, ◌≡◌, ℤ, pos, List, [],
  none, some, take, drop, length,
}
use pyuring.Errors.{Result, Action, ok}
use pyuring.Ctx.State
use pyuring.Ctx.State.{object, reads, UringCtx, u64_mod}
use pyuring.Ctx.Async.{bytearray, cqe, wait_completion, read_async, accepted}
use pyuring.AsyncFile.State.{ensure_open, AsyncFile}
use pyuring.AsyncFile.Io.{
  read_uring, read, await_completion, on_ring, assert_ready, read_uring_once, Device, delivered,
}
use pyuring.Ctx.Single.{submitted, round_trip}
use pyuring.Ctx.Careful.{entry}

-- A transfer of `n` bytes at `at` moves `count ud at n` of them: each is accepted, completes under
-- its own tag, and puts the bytes of the file at the front of the buffer. As `read(2)` documents,
-- a positive read stops at 0 bytes only at the end of the file, and goes not past it.
pub record Serves (content : List ℕ) (device : Device) (count : ℕ → ℕ → ℕ → ℕ) : Type 0 where
  pub event :
      (ud at n : ℕ)
      → device ud at n ≡ record {
        reply = accepted;
        outcome = delivered ud (pos (count ud at n)) (take (count ud at n) (drop at content));
      }
  pub at_most : (ud at n : ℕ) → count ud at n ≤ n
  pub inside : (ud at n : ℕ) → count ud at n ≤ length content - at
  pub progress : (ud at n : ℕ) → 0 < n → at < length content → 0 < count ud at n

-- Where a file on the io_uring path stands between two calls: opened, no buffer pinned, and tags
-- left for `rounds` more transfers.
pub record IsReady (tid rounds : ℕ) (f : AsyncFile) : Type 0 where
  pub fd : ℕ
  pub ctx : UringCtx
  pub has_fd : f.fd ≡ some fd
  pub has_ring : f.ring ≡ some ctx
  pub has_ua : f.has_ua ≡ true
  pub open_ring : State.ensure_open tid ctx ≡ (ok tt, ctx)
  pub unpinned : ctx.keepalive ≡ []
  pub tags : (f.next_ud + rounds) * 2 < u64_mod

pub assert_ready_lem :
    (tid rounds : ℕ) (f : AsyncFile) → IsReady tid rounds f → assert_ready f ≡ (ok tt, f)
unfolding assert_ready
assert_ready_lem tid rounds f r = ground arith

pub on_ring_lem :
    {A : Type 0} (m : Action UringCtx A) (f : AsyncFile) (c c' : UringCtx) (a : A)
    → f.ring ≡ some c
    → m c ≡ (ok a, c')
    → on_ring m f ≡ (ok a, record f { ring = some c' })
unfolding on_ring
on_ring_lem m f c c' a e h = ground arith

pub await_lem :
    (tid tag : ℕ) (res : ℤ) (buf : List ℕ) (f : AsyncFile) (c c' : UringCtx)
    → f.ring ≡ some c
    → wait_completion tid (cqe tag res) c ≡ (ok (tag, res), c')
    → await_completion tid (delivered tag res buf) f
      ≡ (ok (tag, res, buf), record f { ring = some c' })
unfolding await_completion
await_lem tid tag res buf f c c' e h = ground arith

-- The file after one transfer of `k` bytes.
abbrev pub after_transfer : AsyncFile → ℕ → AsyncFile
after_transfer f k = record f { next_ud = f.next_ud + 1; pos = f.pos + k }

-- The file after `next(self._ud)`.
abbrev pub tagged : AsyncFile → AsyncFile
tagged f = record f { next_ud = f.next_ud + 1 }

-- One read on a device that serves the file: it gives the bytes that the device moved, steps the
-- position by as many, and leaves the ring as it was.
pub read_uring_once_lem :
    (tid rounds : ℕ) (content : List ℕ) (device : Device) (count : ℕ → ℕ → ℕ → ℕ) (n : ℕ)
    (f : AsyncFile)
    → Serves content device count
    → IsReady tid (suc rounds) f
    → let k = count f.next_ud f.pos (suc n) in
      read_uring_once tid device (suc n) f
      ≡ (ok (take k (take k (drop f.pos content))), after_transfer f k)
unfolding read_uring_once
read_uring_once_lem tid rounds content device count n f s r =
    ground
      (arith, assert_ready_lem tid (suc rounds) f r, s.event f.next_ud f.pos (suc n), submit, reap)
  where
    ud : ℕ
    ud = f.next_ud

    k : ℕ
    k = count ud f.pos (suc n)

    buf : List ℕ
    buf = take k (drop f.pos content)

    mid : UringCtx
    mid = submitted r.ctx (entry reads (object ud) (suc n) f.pos ud) ud ud

    trip :
        (read_async tid accepted (bytearray ud (suc n)) f.pos ud r.ctx ≡ (ok (pos ud), mid))
        × (wait_completion tid (cqe ud (pos k)) mid ≡ (ok (ud, pos k), r.ctx))
    trip =
        round_trip tid ud (suc n) f.pos ud (pos k) r.ctx r.open_ring (omega (arith, r.tags))
          r.unpinned

    submit :
        on_ring (read_async tid accepted (bytearray ud (suc n)) f.pos ud) (tagged f)
        ≡ (ok (pos ud), record (tagged f) { ring = some mid })
    submit = on_ring_lem _ (tagged f) r.ctx mid (pos ud) r.has_ring trip.0

    reap :
        await_completion tid (delivered ud (pos k) buf) (record (tagged f) { ring = some mid })
        ≡ (ok (ud, pos k, buf), record (tagged f) { ring = some r.ctx })
    reap =
        await_lem tid ud (pos k) buf (record (tagged f) { ring = some mid }) mid r.ctx refl trip.1

-- An open file on the io_uring path.
pub record IsOpen (f : AsyncFile) : Type 0 where
  pub locked : f.has_lock ≡ true
  pub not_closed : f.closed ≡ false
  pub no_fp : f.fp ≡ none

pub ensure_open_lem : (f : AsyncFile) → IsOpen f → ensure_open f ≡ (ok tt, f)
unfolding ensure_open
ensure_open_lem f o = ground arith

-- The guards of `read` pass on an open file.
pub read-read_uring :
    (fuel tid : ℕ) (device : Device) (threaded : ℤ → Result (List ℕ)) (n : ℤ) (f : AsyncFile)
    → ltb_ℤ n (negsuc 0) ≡ false
    → IsOpen f
    → read fuel tid device threaded n f ≡ read_uring fuel tid device n f
unfolding read
read-read_uring fuel tid device threaded n f h o = ground (arith, ensure_open_lem f o)
