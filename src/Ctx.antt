-- ===== src/Ctx.antt =====
-- pyuring/native/uring_ctx.py: the class `UringCtx`, and the part of csrc/uring_wrap.c that its
-- asynchronous methods call. State: the record and its lifecycle. Async: the submissions and
-- completions. Pins, Closed: what holds of them.
pub mod State
pub mod Async
pub mod Pins
pub mod Careful
pub mod History
pub mod Single
pub mod Closed
mod Tests
