-- ===== src/Aio.antt =====
-- pyuring/aio.py. State: the class `UringAsync`. Streams: `sendfile_splice` and
-- `iter_multishot_accept`. Waiters, Delivery, Transfers, Accepting: what holds of them.
pub mod State
pub mod Streams
pub mod Waiters
pub mod Delivery
pub mod Transfers
pub mod Accepting
mod Tests
