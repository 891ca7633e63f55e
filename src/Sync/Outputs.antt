-- ===== src/Sync/Outputs.antt =====
-- Methods of `UringCtx` in pyuring/native/uring_ctx.py that return what C wrote.
use pyuring.Prelude.{
  String, ℕ, ◌*◌, Bool, true, false, some, List, [], ◌∷◌, ℤ, pos, negsuc, length, take, map,
}
use pyuring.Errors.{Result, Action, nowhere, ok, err, raise, pure, ◌>>=◌}
use pyuring.Ctx.State.{UringCtx}
use pyuring.Abi.Convert.{longlongs, integer, memory}
use pyuring.Sync.Request.{Buffer, Request, Reply, Library, int_result, size, perform}
use pyuring.Sync.Registration.{fill}
use pyuring.Sync.Files
use pyuring.Sync.Messages
use pyuring.Sync.Sockets
use pyuring.Sync.Waits

-- Python's `s[:n]`, for a result `n` that is not negative.
abbrev pub front : ℤ → List ℤ → List ℤ
front (pos n) words = take n words
front (negsuc n) words = []

-- The value of the first word, as a length.
abbrev pub first_length : List ℤ → ℕ
first_length [] = 0
first_length (pos n ∷ words) = n
first_length (negsuc n ∷ words) = 0

abbrev pub rest_of : List ℤ → List ℤ
rest_of [] = []
rest_of (w ∷ words) = words

-- `accept`: C writes the length of the address, and the address.
unfoldable pub accept_call : Library → ℕ → ℤ → ℤ → Action UringCtx (ℤ × List ℤ)
accept_call lib tid fd flags = do
  reply ← perform lib tid (Sockets.accept fd flags)
  pure (reply.ret, take (first_length reply.words) (fill 128 (rest_of reply.words)))

-- `pipe`: both ends, from the array of two.
unfoldable pub pipe_call : Library → ℕ → ℤ → Action UringCtx (List ℤ)
pipe_call lib tid pipe_flags = do
  reply ← perform lib tid (Messages.pipe pipe_flags)
  pure (fill 2 reply.words)

-- `epoll_wait`: the result, and the events that it counts, at most as many as there is room for.
abbrev pub epoll_events : ℕ → Reply → ℤ × List ℤ
epoll_events n reply = (reply.ret, front reply.ret (fill n reply.words))

abbrev pub perform_result : Library → ℕ → Result Request → Action UringCtx Reply
perform_result lib tid (err e) = raise e
perform_result lib tid (ok r) = perform lib tid r

abbrev pub room : ℤ → ℕ
room (pos n) = n
room (negsuc n) = 0

-- `epoll_wait`; a word stands for an event.
unfoldable pub epoll_wait_call : Library → ℕ → ℤ → ℤ → ℤ → Action UringCtx (ℤ × List ℤ)
epoll_wait_call lib tid epfd maxevents flags = do
  reply ← perform_result lib tid (Waits.epoll_wait epfd maxevents flags)
  pure (epoll_events (room maxevents) reply)

-- `pipe_direct`
unfoldable pub pipe_direct_call : Library → ℕ → ℤ → ℤ → Action UringCtx (List ℤ)
pipe_direct_call lib tid pipe_flags file_index = do
  reply ← perform lib tid (Messages.pipe_direct pipe_flags file_index)
  pure (fill 2 reply.words)

-- `statx`: a second function, which no test follows, reads the size from what the first one wrote.
unfoldable pub statx_call : Library → (List ℤ → ℤ) → ℕ → String → ℤ → ℤ → ℤ → Action UringCtx ℤ
statx_call lib stx_size tid path dir_fd flags mask = do
  reply ← perform lib tid (Files.statx path dir_fd flags mask)
  pure (stx_size (fill 512 reply.words))

-- `ring_fd`
abbrev pub ring_fd : Request
ring_fd = int_result "uring_ring_fd" []

-- `read`: a block of `length` bytes, cut at the result.
abbrev pub read_request : ℤ → ℕ → ℕ → Request
read_request fd length offset =
    record (int_result "uring_read_sync"
      (integer fd ∷ memory length ∷ size length ∷ size offset ∷ [])) {
        place = record nowhere { at_offset = some offset; of_length = some length };
      }

unfoldable pub read : Library → ℕ → ℤ → ℕ → ℕ → Action UringCtx (List ℤ)
read lib tid fd length offset = do
  reply ← perform lib tid (read_request fd length offset)
  pure (front reply.ret (fill length reply.words))

-- `write`
abbrev pub write : ℤ → Buffer → ℕ → Request
write fd payload offset =
    record (int_result "uring_write_sync"
      (integer fd ∷ memory payload.len ∷ size payload.len ∷ size offset ∷ [])) {
        place = record nowhere { at_offset = some offset; of_length = some payload.len };
      }

abbrev pub batch_request : ℤ → ℕ → ℕ → ℤ → Request
batch_request fd block_size blocks offset = int_result "uring_read_batch_sync" (
    integer fd ∷ memory (block_size * blocks) ∷ size block_size ∷ size blocks ∷ integer offset ∷ [])

-- `read_batch`
unfoldable pub read_batch : Library → ℕ → ℤ → ℕ → ℕ → ℤ → Action UringCtx (List ℤ)
read_batch lib tid fd block_size blocks offset = do
  reply ← perform lib tid (batch_request fd block_size blocks offset)
  pure (front reply.ret (fill (block_size * blocks) reply.words))

-- The array of offsets of `read_offsets`, in bytes.
abbrev pub byte_offsets : ℕ → List ℕ → Bool → List ℕ
byte_offsets block_size offsets true = offsets
byte_offsets block_size offsets false = map (λ o. o * block_size) offsets

-- What `read_offsets` passes.
abbrev pub offsets_request : ℤ → ℕ → List ℕ → Bool → Request
offsets_request fd block_size offsets offset_bytes = int_result "uring_read_offsets_sync" (
    integer fd
    ∷ memory (block_size * length offsets)
    ∷ size block_size
    ∷ longlongs (byte_offsets block_size offsets offset_bytes)
    ∷ size (length offsets)
    ∷ [])

-- `read_offsets`
unfoldable pub read_offsets : Library → ℕ → ℤ → ℕ → List ℕ → Bool → Action UringCtx (List ℤ)
read_offsets lib tid fd block_size offsets offset_bytes = do
  reply ← perform lib tid (offsets_request fd block_size offsets offset_bytes)
  pure (front reply.ret (fill (block_size * length offsets) reply.words))
