-- ===== src/Abi.antt =====
-- The boundary of Python and C: the `argtypes` of pyuring/native/uring_ctx.py and the prototypes of
-- csrc/uring_wrap.c.
pub mod Types
pub mod First
pub mod Second
pub mod Core
pub mod Prototypes
pub mod Agree
pub mod Convert
pub mod Ranges
pub mod Tests
