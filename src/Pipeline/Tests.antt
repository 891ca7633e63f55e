-- ===== src/Pipeline/Tests.antt =====
-- The pipelines at concrete arguments: a source of five bytes, blocks of two, two slots.
use pyuring.Prelude.{
  ◌*◌, false, ltb, ap, ◌==◌, ◌≤◌, if◌then◌else◌, ◌⊎◌, ℤ, ℕ, suc, ◌+◌, ◌<◌, ◌≡◌, ◌≢◌, refl, true,
  none, some, List, [], ◌∷◌, pos, negsuc, arith, inl, inr, String, length,
}
use pyuring.CApi
use pyuring.CApi.{Pipelines, CopyDynamicCall, WriteDynamicCall}
use pyuring.Pipeline.State.{
  buffer_cap, ftruncate, ud_slot, ud_op, pack_ud, taken, moved, pread, pwrite, put, want_at, answer,
  max_buffer, File, Turn, empty_file,
}
use pyuring.Pipeline.Path.{
  uring_copy_path, conclude, launch, allocate, store, measure_source, all_aligned, World, Exit,
  Outcome, returned, waits, uring_copy_path_dynamic,
}
use pyuring.Pipeline.Copy.{
  perform, continue, submitted, refill, write_done, read_done, dispatch, complete, serve, loop,
  launched, trip, want, prime,
}
use pyuring.Pipeline.Hazards.{large_block_overruns, self_copy_empties}
use pyuring.Pipeline.Copied.{copy_never_corrupts, copy_returns, copy_exact}
use pyuring.Pipeline.Complete.{Smooth, short_copy_succeeds, copy_complete}
use pyuring.Pipeline.Blocks.{All}
use pyuring.Pipeline.Ending.{Answered}
use pyuring.Easy.Tuning.{validate_mode, resolve_copy_tuning, copy_fsync, Float64}
use pyuring.Easy.Entry.{copy}
use pyuring.Ctx.State.{mask32}
use pyuring.Pipeline.FromPython.{Loaded, copy_copies}
use pyuring.Errors.{ok, raise_for_neg_errno}
use pyuring.Pipeline.Seen.{Flushes}

-- A path's length stands for its inode.
abbrev inode_of : String → ℕ
inode_of String.[] = 0
inode_of (String.◌∷◌ c s) = suc (inode_of s)

abbrev five : File
five = record { bytes = λ i. 10 + i; size = 5 }

abbrev disk : ℕ → File
disk i = if i == 1 then five else empty_file

abbrev call : CopyDynamicCall
call = record {
  src = "a";
  dst = "to";
  qd = 2;
  block_size = 2;
  size_cb = none;
  fsync = 1;
  progress_cb = none;
}

-- The youngest entry completes first, and moves what it was asked to.
abbrev calm : Turn
calm = record {
  wait = pos 0;
  which = 1;
  errno = 0;
  lack = 0;
  sqe = true;
  submit = pos 1;
  left_queued = 0;
}

abbrev short : Turn
short = record calm { lack = 1 }

abbrev ten : List Turn
ten = calm ∷ calm ∷ calm ∷ calm ∷ calm ∷ calm ∷ calm ∷ calm ∷ calm ∷ calm ∷ []

abbrev world : World
world = record {
  inode = inode_of;
  files = disk;
  open_src = 0;
  open_dst = 0;
  fstat = 0;
  queue_init = pos 0;
  calloc = true;
  memalign = λ i. true;
  heap = λ i k. 0;
  prime_sqe = λ i. true;
  prime_submit = pos 2;
  prime_left_queued = 0;
  turns = ten;
  ftruncate = 0;
  fsync = 0;
}

exit_of : Outcome → Exit
exit_of (returned r x) = x
exit_of waits = record { files = disk; pending = [] }

abbrev after : Exit
after = exit_of (uring_copy_path_dynamic world call)

apart : inode_of "a" ≢ inode_of "to"
apart h = ground arith

copied_five : uring_copy_path_dynamic world call ≡ returned (pos 5) after
unfolding exit_of uring_copy_path_dynamic measure_source store allocate all_aligned launch launched
    prime loop trip serve complete dispatch read_done write_done refill submitted continue perform
    pwrite pread put answer moved taken want want_at max_buffer pack_ud ud_op ud_slot conclude
    ftruncate
copied_five = refl

none_in_flight : after.pending ≡ []
unfolding exit_of uring_copy_path_dynamic measure_source store allocate all_aligned launch launched
    prime loop trip serve complete dispatch read_done write_done refill submitted continue perform
    pwrite pread put answer moved taken want want_at max_buffer pack_ud ud_op ud_slot conclude
    ftruncate
none_in_flight = refl

copy_exact_example :
    ((after.files 2).size ≡ 5) × ((i : ℕ) → i < 5 → (after.files 2).bytes i ≡ five.bytes i)
copy_exact_example = copy_exact world call after (omega arith) (inr refl) apart copied_five

copy_never_corrupts_example :
    (after.files ≡ disk)
    ⊎ ((after.files 1 ≡ store disk 2 (after.files 2) 1)
        × ((after.files 2).size ≤ 5)
        × (((after.files 2).bytes 4 ≡ 0) ⊎ ((after.files 2).bytes 4 ≡ 14)))
copy_never_corrupts_example =
    copy_never_corrupts world call (pos 5) after (omega arith) (inr refl) apart copied_five
      none_in_flight 4 1

ten-Flushes : All Flushes ten
ten-Flushes = (refl, (refl, (refl, (refl, (refl, (refl, (refl, (refl, (refl, (refl, tt))))))))))

copy_returns_example : (r : ℤ) × ((x : Exit) × (uring_copy_path_dynamic world call ≡ returned r x))
copy_returns_example =
    copy_returns world call (omega arith) (inr refl) refl ten-Flushes (omega arith)

calm-Answered : Answered calm
calm-Answered = record { wait = refl; errno = refl; sqe = refl; submit = refl; flushes = refl }

short-Answered : Answered short
short-Answered = record { wait = refl; errno = refl; sqe = refl; submit = refl; flushes = refl }

world-Smooth :
    (turns : List Turn)
    → All Answered turns
    → 10 ≤ length turns
    → Smooth (record world { turns = turns }) call
unfolding all_aligned
world-Smooth turns answered enough = record {
  open_src = refl;
  open_dst = refl;
  fstat = refl;
  queue_init = refl;
  calloc = refl;
  memalign = refl;
  prime_sqe = λ i. refl;
  prime_submit = refl;
  prime_flushes = refl;
  answered = answered;
  enough = enough;
  goes_on = λ n. refl;
  fsync = refl;
}

ten-Answered : All Answered ten
ten-Answered = (
  calm-Answered,
  (
    calm-Answered,
    (
      calm-Answered,
      (
        calm-Answered,
        (
          calm-Answered,
          (calm-Answered, (calm-Answered, (calm-Answered, (calm-Answered, (calm-Answered, tt))))),
        ),
      ),
    ),
  ),
)

copy_complete_example : (x : Exit) × (uring_copy_path_dynamic world call ≡ returned (pos 5) x)
copy_complete_example =
    copy_complete world call (world-Smooth ten ten-Answered (omega arith)) (omega arith) (inr refl)
      (omega arith) (omega arith) apart
      (refl, (refl, (refl, (refl, (refl, (refl, (refl, (refl, (refl, (refl, tt))))))))))

short_copy_succeeds_example :
    (n : ℕ) × ((x : Exit) × ((uring_copy_path_dynamic (record world { turns = short ∷ ten }) call
          ≡ returned (pos n) x)
        × (n < 5)))
short_copy_succeeds_example =
    short_copy_succeeds (record world { turns = short ∷ ten }) call short ten
      (world-Smooth (short ∷ ten) (short-Answered, ten-Answered) (omega arith)) (omega arith)
      (inr refl) (omega arith) (omega arith) apart (omega arith) refl (omega arith)

-- A file onto itself.
self_copy_empties_example :
    (x : Exit) × ((uring_copy_path_dynamic world (record call { dst = "a" }) ≡ returned (pos 0) x)
      × (x.files 1 ≡ empty_file))
self_copy_empties_example =
    self_copy_empties world (record call { dst = "a" }) (omega arith) (omega arith) refl refl refl
      refl

large_block_overruns_example :
    (max_buffer (some (λ off total size. 0)) 100000000 70000000 ≡ buffer_cap)
    × (buffer_cap < want_at (some (λ off total size. 0)) 100000000 70000000 buffer_cap 0)
large_block_overruns_example =
    large_block_overruns (λ off total size. 0) 100000000 70000000 (omega arith) (omega arith)
      (inl refl)

-- The first completion is `EIO`.
abbrev failing : Turn
failing = record calm { errno = 5 }

ret_of : Outcome → ℤ
ret_of (returned r x) = r
ret_of waits = negsuc 0

abbrev loaded_lib : Pipelines
loaded_lib = record {
  uring_copy_path = λ c. ret_of (uring_copy_path world c);
  uring_copy_path_dynamic = λ c. ret_of (uring_copy_path_dynamic world c);
  uring_write_newfile = λ c. pos 0;
  uring_write_newfile_dynamic = λ c. pos 0;
  uring_write_manyfiles = λ c. pos 0;
}

loaded_lib-Loaded : Loaded world loaded_lib
unfolding ret_of
loaded_lib-Loaded = record { static = λ c r x e. ap ret_of e; dynamic = λ c r x e. ap ret_of e }

abbrev floats : Float64
floats = record {
  Float = ℕ × ℕ;
  quotient = λ a b. (a, b);
  less = λ x y. ltb (y.1 * x.0) (y.0 * x.1);
  quarters = λ k. (k, 4);
  exact = λ a b k p q r s. refl;
}

copied_from_python :
    copy floats loaded_lib "a" "to" "safe" (pos 2) (pos 2) false "default" none none ≡ ok (pos 5)
unfolding ret_of uring_copy_path uring_copy_path_dynamic measure_source store allocate all_aligned
    launch launched prime loop trip serve complete dispatch read_done write_done refill submitted
    continue perform pwrite pread put answer moved taken want want_at max_buffer pack_ud ud_op
    ud_slot conclude ftruncate copy copy_fsync validate_mode resolve_copy_tuning CApi.copy_path
    CApi.copy_path_dynamic mask32 raise_for_neg_errno
copied_from_python = refl

block_fits : mask32 (resolve_copy_tuning "safe" (pos 2) (pos 2)).1 ≤ buffer_cap
unfolding mask32 resolve_copy_tuning
block_fits = omega arith

copy_copies_example :
    (c : CopyDynamicCall) × ((c.src ≡ "a")
      × (c.dst ≡ "to")
      × (c.qd ≡ mask32 (resolve_copy_tuning "safe" (pos 2) (pos 2)).0)
      × (c.block_size ≡ mask32 (resolve_copy_tuning "safe" (pos 2) (pos 2)).1)
      × ((x : Exit) × ((uring_copy_path_dynamic world c ≡ returned (pos 5) x)
            × ((x.files 2).size ≡ 5)
            × ((i : ℕ) → i < 5 → (x.files 2).bytes i ≡ five.bytes i))))
copy_copies_example =
    copy_copies world loaded_lib floats "a" "to" "safe" (pos 2) (pos 2) false "default" none none
      loaded_lib-Loaded block_fits refl ten-Flushes (omega arith) apart copied_from_python
