-- ===== src/Pipeline.antt =====
-- csrc/uring_wrap.c: the pipelines that copy and write whole files through one ring. State: slots,
-- entries of the ring, files. Copy: `uring_copy_path_dynamic`.
pub mod State
pub mod Copy
pub mod Path
pub mod Blocks
pub mod Invariant
pub mod Effort
pub mod Turns
pub mod Progress
pub mod Priming
pub mod Seen
pub mod Ending
pub mod Outcomes
pub mod Soundness
pub mod Copied
pub mod Complete
pub mod Hazards
pub mod Dropped
pub mod FromPython
pub mod Newfile
pub mod Filling
pub mod Stages
pub mod Written
pub mod Newfiles
pub mod Fair
pub mod Manyfiles
pub mod Manycall
pub mod Spread
pub mod Rounds
pub mod Reaping
pub mod Manyfilled
pub mod Everyfile
mod ManyTests
mod Tests
mod WriteTests
