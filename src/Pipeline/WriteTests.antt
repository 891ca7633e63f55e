-- ===== src/Pipeline/WriteTests.antt =====
-- `uring_write_newfile_dynamic` at concrete arguments.
use pyuring.Prelude.{
  suc, ℕ, replicate, ◌≤◌, ℤ, ◌<◌, ◌≡◌, refl, true, none, List, [], ◌∷◌, pos, arith, inr,
}
use pyuring.Pipeline.Newfile
use pyuring.CApi.{WriteDynamicCall}
use pyuring.Pipeline.State.{
  ud_slot, ud_op, pack_ud, taken, pwrite, want_at, max_buffer, File, empty_file,
}
use pyuring.Pipeline.Path.{all_aligned}
use pyuring.Pipeline.Newfile.{
  pattern, write_want, resume, write_moved, write_answer, account, reap_from, reap_all, fill,
  and_next, submit_pending, wait_and_reap, write_turn, write_loop, returns, write_out,
  uring_write_newfile_dynamic, WriteTurn, total_of, Written, WriteWorld,
}
use pyuring.Pipeline.Filling.{Letter}
use pyuring.Pipeline.Newfiles.{write_returns, write_exact}
use Newfile.{unreturned}
use pyuring.Pipeline.Fair.{write_complete}
use pyuring.Pipeline.Blocks.{All}
use pyuring.Pipeline.Written.{flowing, EntireTurn, FineTurn}
use Prim.Native.Nat.{zero}

-- One megabyte in one block of one slot, with a turn that writes it.
abbrev filling : WriteDynamicCall
filling = record {
  dst = "to";
  total_mb = 1;
  block_size = 1048576;
  qd = 1;
  fsync = 0;
  dsync = 0;
  size_cb = none;
  progress_cb = none;
}

abbrev one_turn : WriteTurn
one_turn = record {
  sqes = 1;
  submit = pos 1;
  wait = pos 1;
  completed = record { which = 0; errno = 0; lack = 0 } ∷ [];
}

abbrev write_world : WriteWorld
write_world = record {
  old = empty_file;
  open_dst = 0;
  queue_init = pos 0;
  calloc = true;
  memalign = λ i. true;
  turns = one_turn ∷ [];
  fsync = 0;
}

file_of : Written → File
file_of (returns r f) = f
file_of unreturned = empty_file

abbrev megabyte : File
megabyte = file_of (uring_write_newfile_dynamic write_world filling)

filled_once :
    uring_write_newfile_dynamic write_world filling ≡ returns (pos (total_of filling)) megabyte
unfolding file_of uring_write_newfile_dynamic all_aligned write_out write_loop write_turn
    wait_and_reap submit_pending and_next fill reap_all reap_from account write_answer write_moved
    resume pwrite taken write_want want_at max_buffer pack_ud ud_op ud_slot total_of pattern
filled_once = refl

write_exact_example :
    Letter (megabyte.bytes 7) × (7 < megabyte.size) × (megabyte.size ≤ total_of filling)
unfolding total_of
write_exact_example =
    write_exact write_world filling megabyte (omega arith) (inr refl) filled_once 7 (omega arith)

-- As many turns as bytes.
many : List WriteTurn
many = replicate 1048576 one_turn

total_filling : total_of filling ≡ 1048576
unfolding total_of
total_filling = refl

flowing_turns : (n : ℕ) → flowing (replicate n one_turn) ≡ n
flowing_turns zero = refl
flowing_turns (suc n) = omega (arith, flowing_turns n)

flowing-many : flowing many ≡ 1048576
unfolding many
flowing-many = flowing_turns 1048576

write_returns_example :
    (r : ℤ) × ((f : File) × (uring_write_newfile_dynamic
          (record write_world { turns = many })
          filling
        ≡ returns r f))
write_returns_example =
    write_returns (record write_world { turns = many }) filling (omega arith) (inr refl)
      (omega (arith, flowing-many, total_filling))

All-replicate : (P : WriteTurn → Type 0) (n : ℕ) (x : WriteTurn) → P x → All P (replicate n x)
All-replicate P zero x p = tt
All-replicate P (suc n) x p = (p, All-replicate P n x p)

many-FineTurn : All FineTurn many
unfolding many
many-FineTurn =
    All-replicate FineTurn 1048576 one_turn
      (record { submit = refl; wait = refl; writes = (refl, tt) })

many-EntireTurn : All EntireTurn many
unfolding many
many-EntireTurn = All-replicate EntireTurn 1048576 one_turn (refl, tt)

write_complete_example :
    (f : File) × (uring_write_newfile_dynamic (record write_world { turns = many }) filling
      ≡ returns (pos (total_of filling)) f)
unfolding all_aligned
write_complete_example =
    write_complete (record write_world { turns = many }) filling
      (record {
        open_dst = refl;
        queue_init = refl;
        calloc = refl;
        memalign = refl;
        turns = many-FineTurn;
        goes_on = λ n. refl;
        enough = omega (arith, flowing-many, total_filling);
        fsync = refl;
      })
      many-EntireTurn (omega arith) (inr refl) (omega arith) (omega arith) (omega arith)
