-- ===== src/AsyncFile/Tests.antt =====
-- `AsyncFile` of pyuring/async_file.py at concrete arguments.
use Prim.Native.Nat.{min}
use pyuring.Prelude.{
  ℕ, ◌<◌, ◌-◌, ◌+◌, min, ◌≡◌, ◌≢◌, refl, List, [], ◌∷◌, some, none, pos, negsuc, ℤ, true, false,
  Bool, length, drop, take, arith, bit_and, ◌==◌,
}
use pyuring.Errors.{Result, ok, err, os_error, other, uring_error, UringError, make_error, nowhere}
use pyuring.Ctx.State.{UringCtx, new_ctx}
use pyuring.Ctx.State
use pyuring.Ctx.Async.{accepted}
use pyuring.AsyncFile.Mode.{normalize_mode, mode_to_flags, mode, o_append, o_creat, o_wronly}
use pyuring.AsyncFile.Accepted.{Means, normalize_mode-Means}
use pyuring.AsyncFile.State.{AsyncFile, Answers}
use pyuring.AsyncFile.Io.{Device, delivered, read, write, read_slice}
use pyuring.AsyncFile.Device.{Serves, IsReady, IsOpen, tagged}
use pyuring.AsyncFile.Loops.{Moved}
use pyuring.AsyncFile.Whole.{read_n, read_all}
use pyuring.AsyncFile.Writes.{write_lem, write_result}

abbrev no_space : ℕ → Bool
no_space c = c == 32

normalize_ab : normalize_mode no_space (b' ' ∷ b'a' ∷ b'b' ∷ []) ≡ mode (b'a' ∷ b'b' ∷ [])
unfolding normalize_mode
normalize_ab = refl

normalize_mode-Means_example : Means (b'a' ∷ b'b' ∷ []) (mode_to_flags (b'a' ∷ b'b' ∷ []))
normalize_mode-Means_example =
    normalize_mode-Means no_space (b' ' ∷ b'a' ∷ b'b' ∷ []) (b'a' ∷ b'b' ∷ []) normalize_ab

abbrev ring : UringCtx
ring = new_ctx 7 (some 3)

ring-open : State.ensure_open 3 ring ≡ (ok tt, ring)
unfolding State.ensure_open
ring-open = refl

-- A file as `__init__` makes it, for appending.
abbrev unopened : AsyncFile
unopened = record {
  path = "log";
  flags = o_wronly + o_creat + o_append;
  prefer_uring = true;
  use_uring = false;
  fd = none;
  fp = none;
  ring = none;
  has_ua = false;
  pos = 0;
  next_ud = 1;
  closed = true;
  has_lock = false;
  closed_rings = [];
  closed_asyncs = 0;
}

abbrev opened : AsyncFile
opened = record unopened {
  use_uring = true;
  fd = some 5;
  ring = some ring;
  has_ua = true;
  closed = false;
  has_lock = true;
}

abbrev content : List ℕ
content = 10 ∷ 11 ∷ 12 ∷ 13 ∷ []

-- All that is left and fits.
abbrev whole : ℕ → ℕ → ℕ → ℕ
whole ud at n = min n (length content - at)

-- One byte at a time.
abbrev single : ℕ → ℕ → ℕ → ℕ
single ud at n = min 1 (min n (length content - at))

abbrev serving : (ℕ → ℕ → ℕ → ℕ) → Device
serving count ud at n = record {
  reply = accepted;
  outcome = delivered ud (pos (count ud at n)) (take (count ud at n) (drop at content));
}

whole-Serves : Serves content (serving whole) whole
whole-Serves = record {
  event = λ ud at n. refl;
  at_most = λ ud at n. omega arith;
  inside = λ ud at n. omega arith;
  progress = λ ud at n p q. omega arith;
}

single-Serves : Serves content (serving single) single
single-Serves = record {
  event = λ ud at n. refl;
  at_most = λ ud at n. omega arith;
  inside = λ ud at n. omega arith;
  progress = λ ud at n p q. omega arith;
}

abbrev threaded : ℤ → Result (List ℕ)
threaded n = err other

opened-IsOpen : IsOpen opened
opened-IsOpen = record { locked = refl; not_closed = refl; no_fp = refl }

opened-IsReady : IsReady 3 3 opened
opened-IsReady = record {
  fd = 5;
  ctx = ring;
  has_fd = refl;
  has_ring = refl;
  has_ua = refl;
  open_ring = ring-open;
  unpinned = refl;
  tags = omega arith;
}

read_n_example :
    (f' : AsyncFile) × (m : ℕ) × (read 0 3 (serving single) threaded (pos 3) opened
      ≡ (ok (some (take m (drop 0 content))), f'))
    × Moved content 3 opened f' m
read_n_example =
    read_n 3 content (serving single) single single-Serves 0 3 threaded opened opened-IsOpen
      opened-IsReady

read_all_example :
    (f' : AsyncFile) × (read 3 3 (serving whole) threaded (negsuc 0) opened
      ≡ (ok (some (drop 0 content)), f'))
    × (f'.pos ≡ 0 + (length content - 0))
read_all_example =
    read_all 3 content (serving whole) whole whole-Serves 3 threaded opened (λ ud at n. refl)
      opened-IsOpen (omega arith) opened-IsReady

single_pos : 0 < single 1 0 read_slice
single_pos = omega arith

write_lem_example :
    write 3 (serving whole) (err other) 6 4 opened ≡ write_result 4 (pos 4) (tagged opened)
write_lem_example =
    write_lem 3 2 (serving whole) (err other) 6 3 (pos 4) content opened opened-IsOpen
      opened-IsReady refl

abbrev refused_ring : UringError
refused_ring = make_error (pos 95) "uring_create_ex" nowhere

abbrev no_ring : Answers
no_ring = record {
  probe = ok true;
  os_open = ok 5;
  create = err (uring_error refused_ring);
  lseek = ok 0;
  builtin_open = ok 8;
}

-- `os.lseek` on a pipe raises ESPIPE.
abbrev on_pipe : Answers
on_pipe = record {
  probe = ok true;
  os_open = ok 5;
  create = ok ring;
  lseek = err (os_error 29);
  builtin_open = ok 8;
}

appends : bit_and unopened.flags o_append ≢ 0
appends = omega arith
