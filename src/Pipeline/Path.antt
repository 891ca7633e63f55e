-- ===== src/Pipeline/Path.antt =====
-- csrc/uring_wrap.c, `uring_copy_path_dynamic` and `uring_copy_path`: the argument checks, the files,
-- the ring and the buffers, the pipeline, and the label `out`. What the calls of libc and liburing
-- answer is in a `World`; its schedule of turns ends where the observation does.
use pyuring.Prelude.{
  ℕ, zero, suc, ◌-◌, Bool, true, false, ◌||◌, ◌&&◌, not, none, List, [], ℤ, pos, negsuc, is_neg,
  ◌==◌, if◌then◌else◌, String,
}
use pyuring.CApi.{CopyDynamicCall, CopyCall}
use pyuring.Errno.{einval, enomem}
use pyuring.Pipeline.State.{Entry, File, Turn, max_buffer, ftruncate, empty_file}
use pyuring.Pipeline.Copy.{Job, Copy, Run, finished, left, waiting, prime, launched}

-- Files by inode: two paths can name one file. An error number of 0 is a call that succeeds.
pub record World : Type 0 where
  pub inode : String → ℕ
  pub files : ℕ → File
  pub open_src : ℕ
  pub open_dst : ℕ
  pub fstat : ℕ
  pub queue_init : ℤ
  pub calloc : Bool
  pub memalign : ℕ → Bool
  pub heap : ℕ → ℕ → ℕ
  pub prime_sqe : ℕ → Bool
  pub prime_submit : ℤ
  pub prime_left_queued : ℕ
  pub turns : List Turn
  pub ftruncate : ℕ
  pub fsync : ℕ

-- The files when the function returns, and the entries still in the ring when it frees the buffers.
pub record Exit : Type 0 where
  pub files : ℕ → File
  pub pending : List Entry

-- `waits` is a call that has not returned by the end of the schedule.
pub data Outcome : Type 0 where
  returned : ℤ → Exit → Outcome
  waits : Outcome

abbrev pub stop : ℤ → (ℕ → File) → Outcome
stop r files = returned r (record { files = files; pending = [] })

abbrev pub neg_errno : ℕ → ℤ
neg_errno zero = pos 0
neg_errno (suc e) = negsuc e

unfoldable pub store : (ℕ → File) → ℕ → File → ℕ → File
store files i f j = if i == j then f else files j

-- `posix_memalign` for each slot, as far as the first failure.
unfoldable pub all_aligned : (ℕ → Bool) → ℕ → Bool
all_aligned ok zero = true
all_aligned ok (suc n) = all_aligned ok n && ok n

-- `calloc`, then the buffers, which hold what the heap held.
abbrev pub fresh : World → Copy
fresh w = record {
  slots = λ i. record { buf = w.heap i; off = 0; len = 0; active = false };
  next_off = 0;
  inflight = 0;
  copied = 0;
  pending = [];
  unseen = 0;
  dst = empty_file;
}

unfoldable pub launch : World → Job → Run
launch w job =
    launched job w.prime_left_queued w.prime_submit w.turns
      (prime job w.prime_sqe job.call.qd 0 (fresh w))

-- `ftruncate`, whose failure is passed over.
abbrev pub cut_to : ℕ → ℕ → File → File
cut_to failed n f = if failed == 0 then ftruncate n f else f

-- After the loop: the size of the destination is set, `fsync` is called when asked for, and at `out`
-- an error goes before the count. The files are those of the moment: an entry in flight is in
-- `pending`, and what the kernel does with it from then on, with the buffers freed, is not in `files`.
unfoldable pub conclude : World → Job → (ℕ → File) → Run → Outcome
conclude w job files (finished t) =
    returned
      (if not (job.call.fsync == 0) && not (w.fsync == 0) then neg_errno w.fsync else pos t.copied)
      (record {
        files = store files (w.inode job.call.dst) (cut_to w.ftruncate t.copied t.dst);
        pending = t.pending;
      })
conclude w job files (left r t) =
    returned (if is_neg r then r else pos t.copied)
      (record { files = store files (w.inode job.call.dst) t.dst; pending = t.pending })
conclude w job files waiting = waits

abbrev pub job_of : CopyDynamicCall → File → Job
job_of call source = record {
  call = call;
  file_size = source.size;
  max_buffer_size = max_buffer call.size_cb source.size call.block_size;
  content = source.bytes;
}

unfoldable pub allocate : World → Job → (ℕ → File) → Outcome
allocate w job files =
    if is_neg w.queue_init
    then stop w.queue_init files
    else if not w.calloc
    then stop (negsuc (enomem - 1)) files
    else if not (all_aligned w.memalign job.call.qd)
    then stop (negsuc (enomem - 1)) files
    else conclude w job files (launch w job)

-- The source is measured after the destination has been opened with `O_TRUNC`.
unfoldable pub measure_source : World → CopyDynamicCall → (ℕ → File) → Outcome
measure_source w call files =
    if not (w.fstat == 0)
    then stop (neg_errno w.fstat) files
    else if (files (w.inode call.src)).size == 0
    then stop (pos 0) files
    else allocate w (job_of call (files (w.inode call.src))) files

unfoldable pub uring_copy_path_dynamic : World → CopyDynamicCall → Outcome
uring_copy_path_dynamic w call =
    if call.qd == 0 || call.block_size == 0
    then stop (negsuc (einval - 1)) w.files
    else if not (w.open_src == 0)
    then stop (neg_errno w.open_src) w.files
    else if not (w.open_dst == 0)
    then stop (neg_errno w.open_dst) w.files
    else measure_source w call (store w.files (w.inode call.dst) empty_file)

unfoldable pub uring_copy_path : World → CopyCall → Outcome
uring_copy_path w call = uring_copy_path_dynamic w (record {
  src = call.src;
  dst = call.dst;
  qd = call.qd;
  block_size = call.block_size;
  size_cb = none;
  fsync = 0;
  progress_cb = none;
})
