-- ===== src/AsyncFile/Io.antt =====
-- Reads and writes of pyuring/async_file.py on the io_uring path. The lock serialises the calls of
-- one file, so each runs to its end before the next begins.
use Prim.Native.Nat.{min}
use pyuring.Errno
use pyuring.Prelude.{
  ℕ, zero, suc, ◌+◌, ◌-◌, ◌*◌, String, Bool, true, false, Option, none, some, List, [], ◌++◌, ℤ,
  pos, negsuc, ltb, ltb_ℤ, ◌==◌, if◌then◌else◌, take, length,
}
use pyuring.Errors.{
  Exception, Result, Action, ok, err, uring_error, make_error, value_error, other, pure, raise,
  gets, ◌>>=◌, ◌>>◌,
}
use pyuring.Ctx.State.{UringCtx}
use pyuring.Ctx.Async.{bytes, Submission, bytearray, read_async, write_async, wait_completion, cqe}
use pyuring.AsyncFile.State.{AsyncFile, ensure_open}

-- `_READ_SLICE`
abbrev pub read_slice : ℕ
read_slice = 256 * 1024

-- How one submission and the `await` of its completion go: the answer of liburing, and then the tag
-- and result that the await gives, with the content of the buffer by then; or what it raises.
pub data Outcome : Type 0 where
  delivered : ℕ → ℤ → List ℕ → Outcome
  raised : Exception → Outcome

pub record Event : Type 0 where
  pub reply : Submission
  pub outcome : Outcome

-- The kernel as the file sees it: what happens to the transfer with the tag `ud` of `n` bytes at
-- the position `pos`. Each transfer has a tag of its own, so two need not go alike.
abbrev pub Device : Type 0
Device = ℕ → ℕ → ℕ → Event

-- The assertion on `_fd`, `_ring` and `_ua`.
abbrev pub ready : AsyncFile → Bool
ready f = elim f.fd [ none ↦ false | some fd ↦ elim f.ring [ none ↦ false | some c ↦ f.has_ua ] ]

unfoldable pub assert_ready : Action AsyncFile (Unit {0})
assert_ready f = if ready f then (ok tt, f) else (err other, f)

-- A method of the ring, called by the file.
unfoldable pub on_ring : {A : Type 0} → Action UringCtx A → Action AsyncFile A
on_ring m f = elim f.ring [
  | none ↦ (err other, f)
  | some c ↦ let (r, c') = m c in (r, record f { ring = some c' })
]

-- `next(self._ud)`
abbrev pub next_tag : Action AsyncFile ℕ
next_tag f = (ok f.next_ud, record f { next_ud = f.next_ud + 1 })

-- `await self._ua.wait_completion()`: the `UringAsync` reaps the completion from the ring.
unfoldable pub await_completion : ℕ → Outcome → Action AsyncFile (ℕ × ℤ × List ℕ)
unfolding on_ring
await_completion tid (raised e) = raise e
await_completion tid (delivered tag res buf) =
    on_ring (wait_completion tid (cqe tag res)) >> pure (tag, res, buf)

abbrev pub transfer_error : ℤ → String → Option String → AsyncFile → ℕ → Exception
transfer_error n operation detail f len = uring_error (
    make_error n operation (record {
      detail = detail;
      filename = some f.path;
      at_offset = some f.pos;
      of_length = some len;
    }))

-- The tests that follow the await, and the step of the position.
abbrev pub settle_transfer : String → ℕ → ℕ → ℕ × ℤ × List ℕ → Action AsyncFile (ℕ × List ℕ)
settle_transfer operation len ud (tag, pos n, buf) f =
    if tag == ud then (ok (n, buf), record f { pos = f.pos + n }) else (
      err (transfer_error (pos Errno.eio) operation (some "completion user_data mismatch") f len),
      f,
    )
settle_transfer operation len ud (tag, negsuc n, buf) f =
    if tag == ud then (err (transfer_error (pos (suc n)) operation none f len), f) else (
      err (transfer_error (pos Errno.eio) operation (some "completion user_data mismatch") f len),
      f,
    )

-- The new object of a read is a `bytearray(n)`; its identity plays no part, and is the tag.
unfoldable pub read_uring_once : ℕ → Device → ℕ → Action AsyncFile (List ℕ)
read_uring_once tid device zero = assert_ready >> pure []
read_uring_once tid device (suc n) = do
  assert_ready
  ud ← next_tag
  at ← gets (λ f. f.pos)
  on_ring (read_async tid (device ud at (suc n)).reply (bytearray ud (suc n)) at ud)
  got ← await_completion tid (device ud at (suc n)).outcome
  done ← settle_transfer "AsyncFile.read" (suc n) ud got
  pure (take done.0 done.1)

-- `_read_uring_up_to`: each round but the last reads something, so `n` rounds are enough.
unfoldable pub up_to_loop : ℕ → ℕ → Device → ℕ → List ℕ → Action AsyncFile (List ℕ)
up_to_loop zero tid device remaining out f = (ok out, f)
up_to_loop (suc fuel) tid device zero out f = (ok out, f)
up_to_loop (suc fuel) tid device (suc rest) out f =
    let chunk_sz = min (suc rest) read_slice in
    let (r, f') = read_uring_once tid device chunk_sz f in
    elim r [
      | err e ↦ (err e, f')
      | ok piece ↦ elim (length piece == 0) [
        | true ↦ (ok out, f')
        | false ↦ elim (ltb (length piece) chunk_sz) [
          | true ↦ (ok (out ++ piece), f')
          | false ↦ up_to_loop fuel tid device (suc rest - length piece) (out ++ piece) f'
        ]
      ]
    ]

unfoldable pub read_uring_up_to : ℕ → Device → ℕ → Action AsyncFile (List ℕ)
read_uring_up_to tid device n = up_to_loop n tid device n []

-- `_read_uring_until_eof`, with the chunks joined as they come; `none` when the fuel runs out.
unfoldable pub until_eof_loop : ℕ → ℕ → Device → List ℕ → Action AsyncFile (Option (List ℕ))
until_eof_loop zero tid device out f = (ok none, f)
until_eof_loop (suc fuel) tid device out f =
    let (r, f') = read_uring_once tid device read_slice f in
    elim r [
      | err e ↦ (err e, f')
      | ok piece ↦ elim (length piece == 0) [
        | true ↦ (ok (some out), f')
        | false ↦ elim (ltb (length piece) read_slice) [
          | true ↦ (ok (some (out ++ piece)), f')
          | false ↦ until_eof_loop fuel tid device (out ++ piece) f'
        ]
      ]
    ]

abbrev pub some_of : Result (List ℕ) × AsyncFile → Result (Option (List ℕ)) × AsyncFile
some_of (ok out, f) = (ok (some out), f)
some_of (err e, f) = (err e, f)

abbrev pub read_uring : ℕ → ℕ → Device → ℤ → Action AsyncFile (Option (List ℕ))
read_uring fuel tid device (negsuc n) f = (assert_ready >> until_eof_loop fuel tid device []) f
read_uring fuel tid device (pos n) f =
    some_of ((assert_ready >> (if n == 0 then pure [] else read_uring_up_to tid device n)) f)

-- `read(n)`, -1 by default. `threaded` is what `fp.read(n)` gives in the executor, and `fuel` bounds
-- the rounds of a read to the end.
unfoldable pub read :
    ℕ → ℕ → Device → (ℤ → Result (List ℕ)) → ℤ → Action AsyncFile (Option (List ℕ))
read fuel tid device threaded n f =
    if ltb_ℤ n (negsuc 0) then (err value_error, f) else ((ensure_open >> pick) f)
  where
    pick : Action AsyncFile (Option (List ℕ))
    pick g = elim g.fp [ some fp ↦ some_of (threaded n, g) | none ↦ read_uring fuel tid device n g ]

-- The transfer of a `write` of at least one byte.
unfoldable pub write_uring : ℕ → Device → ℕ → ℕ → Action AsyncFile ℕ
write_uring tid device obj len = do
  assert_ready
  ud ← next_tag
  at ← gets (λ f. f.pos)
  on_ring (write_async tid (device ud at len).reply (bytes obj len) at ud)
  got ← await_completion tid (device ud at len).outcome
  done ← settle_transfer "AsyncFile.write" len ud got
  pure done.0

-- `write(data)`: `obj` is the new `bytes` object, and `threaded` what `fp.write` gives.
unfoldable pub write : ℕ → Device → Result ℕ → ℕ → ℕ → Action AsyncFile ℕ
write tid device threaded obj len f = (ensure_open >> (if len == 0 then pure 0 else pick)) f
  where
    pick : Action AsyncFile ℕ
    pick g = elim g.fp [ some fp ↦ (threaded, g) | none ↦ write_uring tid device obj len g ]
