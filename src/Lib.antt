-- ===== src/Lib.antt =====
-- pyuring: a Python binding of io_uring.
--
-- The library has a native layer and what is built on it. `UringCtx` (pyuring/native/uring_ctx.py)
-- owns one ring through the C functions of csrc/uring_wrap.c. `UringAsync` (pyuring/aio.py) hands its
-- completions to the futures of an event loop, and `AsyncFile` (pyuring/async_file.py) reads and
-- writes a file through both, or through a thread where io_uring is not to be had. `UringPool`
-- (pyuring/pool.py), `BufferPool` (pyuring/native/buffer_pool.py) and `BufferRing`
-- (pyuring/buffer_ring.py) own rings and buffers. `copy`, `write` and `write_many` (pyuring/_easy.py)
-- choose presets and call the pipelines of C through pyuring/native/c_api.py.
--
-- Files:
--   Errno, Errors    pyuring/native/errors.py; an `Action` is a method that may raise, with its state
--   Ctx/State        `UringCtx`: construction, the guards and `close`
--   Ctx/Async        `read_async`, `write_async`, `splice_submit`, `wait_completion`,
--                    `peek_completion` and `submit`, over their C functions
--   Ctx/Pins, Careful, History, Single, Closed    proofs about the pinned buffers and the guards
--   CApi             pyuring/native/c_api.py
--   Easy/Tuning, Entry    pyuring/_easy.py; Easy/Presets, Routes prove
--   AsyncFile/Mode, State, Io    pyuring/async_file.py; Accepted, Device, Loops, Whole, Writes and
--                    Release prove
--   Aio/State, Streams    pyuring/aio.py; Aio/Waiters, Delivery, Transfers and
--                    Accepting prove
--   Pool/Rings       pyuring/pool.py; Pool/Indexing proves
--   BufferPool/Native, Methods    the pool of csrc/uring_wrap.c and pyuring/native/buffer_pool.py;
--                    Sizes, History and Grow prove
--   BufferRing       pyuring/buffer_ring.py; BufferRing/Slab proves
--   Capabilities/Probe, Snapshot    pyuring/capabilities.py, and the probe through a ring; Cache
--                    and Snapshot prove
--   Abi/First, Second    the `argtypes` of pyuring/native/uring_ctx.py; Abi/Core and Prototypes hold the
--                    prototypes of csrc/uring_wrap.c, Convert what ctypes passes; Agree and Ranges prove
--   Sync/Request     a synchronous method of `UringCtx`: its native call, the guard and the test
--   Sync/Files, Sockets, Waits, Messages, Vectors, Registration, Outputs    the synchronous methods
--   Sync/Accepted, FileCalls, SocketCalls, WaitCalls, MessageCalls, VectorCalls, EveryCall    proofs
--                    about ctypes and the arguments; Spans, FileSpans, SocketSpans, WaitSpans,
--                    VectorSpans and EverySpan about the memory behind their pointers
--   Sync/Calls, Lengths, Masks, Pinning    proofs about results, lists of buffers, masked integers and
--                    the kept buffers
--   Uapi/Flags, Others, Names, Presets    pyuring/native/constants.py and pyuring/ring_presets.py
--   Library          pyuring/native/library.py
--   Structs, Exports    pyuring/native/structs.py; pyuring/__init__.py
--   Pipeline/State, Copy, Path    `uring_copy_path_dynamic` of csrc/uring_wrap.c: what the pipelines
--                    share, the loop, the whole call; Blocks, Invariant, Effort, Turns, Progress,
--                    Priming, Seen, Ending, Outcomes and Soundness prove what Copied, Complete,
--                    Hazards and Dropped state
--   Pipeline/FromPython    `copy` of pyuring/_easy.py over the pipelines that copy
--   Pipeline/Newfile    `uring_write_newfile_dynamic`; Filling, Stages, Written, Newfiles and
--                    Fair prove
--   Pipeline/Manyfiles, Manycall    `uring_write_manyfiles`; Spread, Rounds, Reaping and Manyfilled prove what
--                    Everyfile states
--   Queue            which completions the synchronous C functions take; Queue/Batch and Stale prove
-- The Tests of a part hold results at concrete arguments.
--
-- What is an argument: the answers of liburing and of the kernel to each call, those of the operating
-- system and the event loop, the native allocator, Python's floats (the record
-- `Float64`) and its `str.isspace`. A Python object is a number, its identity. The ring keeps the list
-- of its entries in flight, so that the pins can be compared with it; C keeps them in the ring.
-- `user_data` and 32-bit arguments wrap around as ctypes and the code make them; other integers of
-- Python are unbounded, and an offset, a length, a count and a chunk are taken not to be negative
-- where they are natural numbers here.
--
-- Loops: `AsyncFile.read(n)` has `n` rounds, since each but the last reads a byte; `read()` and
-- `sendfile_splice` take their number of rounds as an argument, and the results say which is enough.
-- The lock of `AsyncFile` serialises its calls, and the callbacks of an event loop run one at a time,
-- so that a history is a sequence of calls.
--
-- A synchronous method is a `Request`: the native function, its arguments and what becomes of the
-- result. The native functions are one argument, a `Library` from names and converted arguments to
-- a result and the words that C wrote. `len` and the size of a buffer's memory are fields of `Buffer`.
-- The loop over the completions of a batch has as much fuel as the batch has blocks, of which each
-- round takes one at least.
--
-- A pipeline runs on a schedule: a `Turn` holds what the calls of one round of its loop answer,
-- which entry completes, and how many bytes fewer than asked it moves, so that any order of
-- completions, any short transfer, any failure and any short submission is a schedule. The kernel
-- moves the bytes of an entry when the entry completes; what it does with entries that are in flight
-- when a function returns is not in the files of that moment. The callbacks for size and progress are
-- functions of their arguments. The proofs give the length of a schedule that is enough. CApi
-- takes the pipelines as an argument, which FromPython relates to these. `unsigned` arguments are
-- below 2^32; offsets stay below a file's size, so that their 64-bit sums do not wrap around;
-- the product that is the bytes of many files does.
-- `RWF_DSYNC` has no meaning in the model.
--
-- Not modelled: the entries that the synchronous C functions prepare, since the kernel's part of them is
-- not in the repository; the examples, tests and scripts, which are no part of the library.

pub mod Prelude
pub mod Errno
pub mod Errors
pub mod Ctx
pub mod CApi
pub mod Easy
pub mod AsyncFile
pub mod Aio
pub mod Pool
pub mod BufferPool
pub mod Capabilities
pub mod BufferRing
pub mod Abi
pub mod Sync
pub mod Queue
pub mod Pipeline
pub mod Uapi
pub mod Library
pub mod Structs
pub mod Exports
