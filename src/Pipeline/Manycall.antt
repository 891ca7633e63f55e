-- ===== src/Pipeline/Manycall.antt =====
-- csrc/uring_wrap.c, `uring_write_manyfiles` around its loop.
use pyuring.Prelude.{
  ℕ, zero, suc, ◌-◌, Bool, false, ◌||◌, ◌&&◌, not, List, [], ◌∷◌, ℤ, pos, negsuc, is_neg, ◌==◌,
  if◌then◌else◌,
}
use pyuring.CApi.{ManyCall}
use pyuring.Errno.{einval, enomem}
use pyuring.Pipeline.State.{File, empty_file}
use pyuring.Pipeline.Manyfiles.{Many, ManyTurn, ManyRun, many_loop}
use pyuring.Pipeline.Manyfiles
use Manyfiles.{over, dropped_out, endless}

-- What the calls before the loop and after it answer; a file that is opened is empty. `path_fits i` is
-- whether the path of file i fits its 512 bytes; `allocs` is whether all allocations after the first
-- succeed.
pub record ManyWorld : Type 0 where
  pub alloc_fds : Bool
  pub path_fits : ℕ → Bool
  pub open_file : ℕ → ℕ
  pub queue_init : ℤ
  pub allocs : Bool
  pub turns : List ManyTurn
  pub fsync_file : ℕ → ℕ

-- The files of the call when it returns, or none when it has not.
pub data Manyed : Type 0 where
  gives_back : ℤ → (ℕ → File) → Manyed
  never : Manyed

pub data Opening : Type 0 where
  all_open : Opening
  refused : ℕ → Opening

abbrev pub enametoolong : ℕ
enametoolong = 36

-- Files i, i + 1, …, of which n are left, as far as the first that fails.
unfoldable pub open_files : ManyWorld → ℕ → ℕ → Opening
open_files w zero i = all_open
open_files w (suc n) i =
    let rest = open_files w n (suc i) in
    if not (w.path_fits i)
    then refused enametoolong
    else if not (w.open_file i == 0)
    then refused (w.open_file i)
    else rest

-- `fsync` of each file, as far as the first that fails: its error number, or 0.
unfoldable pub fsync_files : ManyWorld → ℕ → ℕ → ℕ
fsync_files w zero i = 0
fsync_files w (suc n) i =
    let rest = fsync_files w n (suc i) in if w.fsync_file i == 0 then rest else w.fsync_file i

-- The top of the stack is the last slot.
abbrev pub all_slots : ℕ → List ℕ
all_slots zero = []
all_slots (suc n) = n ∷ all_slots n

abbrev pub no_files : ℕ → File
no_files i = empty_file

abbrev pub many_start : ManyCall → Many
many_start call = record {
  file_off = λ f. 0;
  file_done = λ f. false;
  done_files = 0;
  rr = 0;
  free_slots = all_slots call.qd;
  inflight = 0;
  written = 0;
  ring = [];
  files = no_files;
}

unfoldable pub many_end : ManyWorld → ManyCall → ManyRun → Manyed
many_end w call (over t) =
    let failed = fsync_files w call.nfiles 0 in
    gives_back
      (if not (call.fsync_end == 0) && not (failed == 0)
        then negsuc (failed - 1)
        else pos t.written)
      t.files
many_end w call (dropped_out r t) = gives_back (if is_neg r then r else pos t.written) t.files
many_end w call endless = never

unfoldable pub run_many : ManyWorld → ManyCall → Opening → Manyed
run_many w call (refused e) = gives_back (negsuc (e - 1)) no_files
run_many w call all_open =
    if is_neg w.queue_init
    then gives_back w.queue_init no_files
    else if not w.allocs
    then gives_back (negsuc (enomem - 1)) no_files
    else many_end w call (many_loop call w.turns (many_start call))

unfoldable pub uring_write_manyfiles : ManyWorld → ManyCall → Manyed
uring_write_manyfiles w call =
    if call.nfiles == 0 || call.mb_per_file == 0 || call.block_size == 0 || call.qd == 0
    then gives_back (negsuc (einval - 1)) no_files
    else if not w.alloc_fds
    then gives_back (negsuc (enomem - 1)) no_files
    else run_many w call (open_files w call.nfiles 0)
