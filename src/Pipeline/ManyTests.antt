-- ===== src/Pipeline/ManyTests.antt =====
-- `uring_write_manyfiles` at concrete arguments.
use pyuring.Prelude.{
  ℕ, replicate, length-replicate, ℤ, ◌≡◌, refl, true, List, [], ◌∷◌, pos, arith, length,
}
use pyuring.CApi.{ManyCall}
use pyuring.Pipeline.State.{File, ud_slot, ud_op, pack_ud, taken, pwrite}
use pyuring.Pipeline.Newfile.{write_answer, write_moved}
use pyuring.Pipeline.Manyfiles.{
  ManyTurn, per_file_bytes, assign, small_pattern, advance, pick, queue_block, enqueue, many_then,
  settle_block, reap_block, reap_blocks, reap_batch, many_turn, many_resume, many_loop,
}
use pyuring.Pipeline.Manycall
use pyuring.Pipeline.Manycall.{
  ManyWorld, Manyed, gives_back, no_files, open_files, fsync_files, many_end, run_many,
  uring_write_manyfiles,
}
use pyuring.Pipeline.Everyfile.{all_bytes, many_exact, many_returns, Whole}
use Manycall.{never}

-- Two files of one megabyte, one block each, and a turn that completes the second before the first.
abbrev two_files : ManyCall
two_files = record {
  dir = "to";
  nfiles = 2;
  mb_per_file = 1;
  block_size = 1048576;
  qd = 2;
  fsync_end = 1;
}

abbrev both : ManyTurn
both = record {
  sqes = 2;
  submit = pos 2;
  wait = pos 0;
  first = record { which = 1; errno = 0; lack = 0 };
  others = record { which = 0; errno = 0; lack = 0 } ∷ [];
}

abbrev many_world : ManyWorld
many_world = record {
  alloc_fds = true;
  path_fits = λ i. true;
  open_file = λ i. 0;
  queue_init = pos 0;
  allocs = true;
  turns = both ∷ [];
  fsync_file = λ i. 0;
}

files_of : Manyed → ℕ → File
files_of (gives_back r files) = files
files_of never = no_files

abbrev two_written : ℕ → File
two_written = files_of (uring_write_manyfiles many_world two_files)

both_written :
    uring_write_manyfiles many_world two_files ≡ gives_back (pos (all_bytes two_files)) two_written
unfolding files_of uring_write_manyfiles open_files run_many many_end fsync_files many_loop
    many_resume many_turn reap_batch reap_blocks reap_block settle_block many_then enqueue
    queue_block pick advance small_pattern assign per_file_bytes write_answer write_moved pwrite
    taken pack_ud ud_op ud_slot
both_written = refl

many_exact_example : Whole two_files two_written
many_exact_example = many_exact many_world two_files two_written (omega arith) both_written

-- A turn more than bytes.
turns_enough : List ManyTurn
turns_enough = replicate 2097153 both

length-turns_enough : length turns_enough ≡ 2097153
unfolding turns_enough
length-turns_enough = length-replicate 2097153 both

all_two_files : all_bytes two_files ≡ 2097152
unfolding per_file_bytes
all_two_files = refl

many_returns_example :
    (r : ℤ) × ((files : ℕ → File) × (uring_write_manyfiles
          (record many_world { turns = turns_enough })
          two_files
        ≡ gives_back r files))
many_returns_example =
    many_returns (record many_world { turns = turns_enough }) two_files (omega arith)
      (omega (arith, length-turns_enough, all_two_files))
