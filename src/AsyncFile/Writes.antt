-- ===== src/AsyncFile/Writes.antt =====
-- `AsyncFile.write` of pyuring/async_file.py.
use pyuring.Prelude.{refl, some, arith, none, negsuc, ◌+◌, ◌≡◌, suc, pos, List, ℤ, ℕ}
use pyuring.AsyncFile.Io.{
  await_completion, on_ring, transfer_error, delivered, Device, write_uring, write,
}
use Prim.Native.Nat.{suc, ℕ}
use pyuring.AsyncFile.State.{AsyncFile}
use pyuring.Errors.{err, ok, Result}
use pyuring.AsyncFile.Device.{
  assert_ready_lem, await_lem, on_ring_lem, ensure_open_lem, tagged, IsOpen, IsReady,
}
use pyuring.Ctx.Async.{cqe, wait_completion, bytes, write_async, accepted}
use pyuring.Ctx.State.{object, writes, UringCtx}
use pyuring.Ctx.Single.{write_round_trip, submitted}
use pyuring.Ctx.Careful.{entry}

-- What a write makes of a completion under its own tag.
abbrev pub write_result : ℕ → ℤ → AsyncFile → Result ℕ × AsyncFile
write_result len (pos n) f = (ok n, record f { pos = f.pos + n })
write_result len (negsuc n) f = (err (transfer_error (pos (suc n)) "AsyncFile.write" none f len), f)

write_uring_lem :
    (tid rounds : ℕ) (device : Device) (obj len : ℕ) (res : ℤ) (buf : List ℕ) (f : AsyncFile)
    → IsReady tid (suc rounds) f
    → device f.next_ud f.pos len
      ≡ record { reply = accepted; outcome = delivered f.next_ud res buf }
    → write_uring tid device obj len f ≡ write_result len res (tagged f)
unfolding write_uring
write_uring_lem tid rounds device obj len res buf f r e =
    ground (arith, assert_ready_lem tid (suc rounds) f r, submit, reap)
  where
    ud : ℕ
    ud = f.next_ud

    mid : UringCtx
    mid = submitted r.ctx (entry writes (object obj) len f.pos ud) ud obj

    trip :
        (write_async tid accepted (bytes obj len) f.pos ud r.ctx ≡ (ok (pos ud), mid))
        × (wait_completion tid (cqe ud res) mid ≡ (ok (ud, res), r.ctx))
    trip =
        write_round_trip tid obj len f.pos ud res r.ctx r.open_ring (omega (arith, r.tags))
          r.unpinned

    submit :
        on_ring (write_async tid accepted (bytes obj len) f.pos ud) (tagged f)
        ≡ (ok (pos ud), record (tagged f) { ring = some mid })
    submit = on_ring_lem _ (tagged f) r.ctx mid (pos ud) r.has_ring trip.0

    reap :
        await_completion tid (delivered ud res buf) (record (tagged f) { ring = some mid })
        ≡ (ok (ud, res, buf), record (tagged f) { ring = some r.ctx })
    reap = await_lem tid ud res buf (record (tagged f) { ring = some mid }) mid r.ctx refl trip.1

-- One write of at least one byte, whose entry is submitted and completes under its own tag: a
-- result from 0 up is returned and moves the position by as much; a negative one raises its errno
-- with the path, position and length, and the position stays. The tag is used up either way.
pub write_lem :
    (tid rounds : ℕ) (device : Device) (written : Result ℕ) (obj len : ℕ) (res : ℤ) (buf : List ℕ)
    (f : AsyncFile)
    → IsOpen f
    → IsReady tid (suc rounds) f
    → device f.next_ud f.pos (suc len)
      ≡ record { reply = accepted; outcome = delivered f.next_ud res buf }
    → write tid device written obj (suc len) f ≡ write_result (suc len) res (tagged f)
unfolding write
write_lem tid rounds device written obj len res buf f o r e =
    ground
      (arith, ensure_open_lem f o, write_uring_lem tid rounds device obj (suc len) res buf f r e)
