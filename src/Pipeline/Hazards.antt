-- ===== src/Pipeline/Hazards.antt =====
-- csrc/uring_wrap.c, `uring_copy_path_dynamic`: a source that is its own destination, and blocks above the
-- cap on buffers.
use pyuring.Prelude.{ℕ, zero, suc, ◌<◌, ◌≡◌, refl, ◌⊎◌, inl, inr, [], arith, some, pos}
use pyuring.CApi.{CopyDynamicCall}
use pyuring.Pipeline.State.{buffer_cap, max_buffer, empty_file, SizeCb, want_at, probe}
use pyuring.Pipeline.Path.{World, Exit, returned, uring_copy_path_dynamic, measure_source, store}
use pyuring.Pipeline.Outcomes.{truncated}
use pyuring.Pipeline.Complete.{==_of, args_ok}

emptied :
    (w : World) (call : CopyDynamicCall)
    → w.inode call.src ≡ w.inode call.dst
    → truncated w call (w.inode call.src) ≡ empty_file
unfolding store
emptied w call same = ground arith

-- When the two paths name one file, the depth and the block size are not 0 and the files can be
-- opened and measured, the file is emptied and the call returns 0, which is no error: the
-- destination is opened with O_TRUNC before the source is measured.
pub self_copy_empties :
    (w : World) (call : CopyDynamicCall)
    → 0 < call.qd
    → 0 < call.block_size
    → w.open_src ≡ 0
    → w.open_dst ≡ 0
    → w.fstat ≡ 0
    → w.inode call.src ≡ w.inode call.dst
    → (x : Exit) × ((uring_copy_path_dynamic w call ≡ returned (pos 0) x)
        × (x.files (w.inode call.src) ≡ empty_file))
unfolding uring_copy_path_dynamic measure_source
self_copy_empties w call q b src dst stat same = (
  record { files = truncated w call; pending = [] },
  (
    simp
        (
          args_ok call.qd call.block_size q b,
          ==_of w.open_src src,
          ==_of w.open_dst dst,
          ==_of w.fstat stat,
          emptied w call same,
        )
        refl,
    emptied w call same,
  ),
)

probe-cap :
    (cb : SizeCb) (total block_size fuel : ℕ)
    → buffer_cap < block_size
    → 0 < total
    → probe cb total block_size (suc fuel) 0 block_size ≡ buffer_cap
unfolding probe
probe-cap cb total block_size fuel big h = ground arith

-- With a callback, a block size above the cap of 64 MiB and a source with more bytes than the cap,
-- the buffers have the size of the cap, and the first block is larger than they are when the
-- callback gives 0 or a size above the cap for it.
pub large_block_overruns :
    (cb : SizeCb) (total block_size : ℕ)
    → buffer_cap < block_size
    → buffer_cap < total
    → (cb 0 total block_size ≡ 0) ⊎ (buffer_cap < cb 0 total block_size)
    → (max_buffer (some cb) total block_size ≡ buffer_cap)
      × (buffer_cap < want_at (some cb) total block_size buffer_cap 0)
unfolding max_buffer want_at
large_block_overruns cb zero block_size big more sized = absurd (omega (arith, more))
large_block_overruns cb (suc total) block_size big more (inl z) =
    (probe-cap cb (suc total) block_size total big (omega arith), ground arith)
large_block_overruns cb (suc total) block_size big more (inr z) =
    (probe-cap cb (suc total) block_size total big (omega arith), ground arith)
