-- ===== src/Sync.antt =====
-- The synchronous methods of pyuring/native/uring_ctx.py.
pub mod Request
pub mod Files
pub mod Sockets
pub mod Waits
pub mod Messages
pub mod Vectors
pub mod Registration
pub mod Outputs
pub mod Accepted
pub mod FileCalls
pub mod SocketCalls
pub mod WaitCalls
pub mod MessageCalls
pub mod VectorCalls
pub mod EveryCall
pub mod Spans
pub mod Calls
pub mod Pinning
pub mod Lengths
pub mod FileSpans
pub mod SocketSpans
pub mod WaitSpans
pub mod VectorSpans
pub mod EverySpan
pub mod Tests
pub mod Masks
