-- ===== src/AsyncFile.antt =====
-- pyuring/async_file.py. Mode: the modes and flags. State: the class, its opening and closing. Io:
-- the reads and writes. Device: what is assumed of the kernel. Loops, Writes, Release: what holds.
pub mod Mode
pub mod State
pub mod Io
pub mod Accepted
pub mod Device
pub mod Loops
pub mod Whole
pub mod Writes
pub mod Release
mod Tests
