-- ===== src/Ctx/Closed.antt =====
-- `close`, the guards, and the calls that break the discipline of the tags.
use pyuring.Ctx.State.{
  object, writes, pointer, reads, u64_mod, closed_error, thread_error, UringCtx, close, ensure_open,
}
use Prim.Native.Nat.{suc, ℕ}
use pyuring.Prelude.{
  refl, inr, inl, ◌⊎◌, ◌%◌, pos, ◌-◌, ◌≤◌, ◌<◌, ◌*◌, suc, ◌∷◌, [], ◌≢◌, none, some, arith, ℤ, ◌≡◌,
  ℕ,
}
use pyuring.Ctx.Async.{
  write_async_ptr, at, accepted, lookup, cqe, call_async, wait_failed, submit_and_track,
  read_async_ptr, submit_and_wait, submit, peek_completion, wait_completion, splice_submit,
  write_async, bytes, pair, bytearray, read_async, Peek, Wait, Submission,
}
use pyuring.Errors.{make_error, uring_error, value_error, Exception, ok, err}
use pyuring.Ctx.Careful.{call_async_accepted, entry, call_async_raised, submit_and_track_raised}

-- The asynchronous calls `read_async`, `write_async`, `write_async_ptr`, `splice_submit`,
-- `wait_completion`, `peek_completion`, `submit` and `submit_and_wait` raise `x` and change nothing: neither the pins, nor the entries in
-- flight, nor the destroyed handles. (A `bytes` buffer is copied to a new object before the test.)
abbrev pub Refuses :
    Exception → UringCtx → ℕ → Submission → ℕ → ℕ → ℕ → ℕ → ℤ → Wait → Peek → Type 0
Refuses x c tid reply obj len offset ud n w p =
    (read_async tid reply (bytearray obj len) offset ud c ≡ (err x, c))
    × (read_async tid reply (pair obj len) offset ud c ≡ (err x, c))
    × (read_async tid reply (bytes obj len) offset ud c ≡ (err x, record c { fresh = suc c.fresh }))
    × (write_async tid reply (bytearray obj len) offset ud c ≡ (err x, c))
    × (write_async tid reply (bytes obj len) offset ud c ≡ (err x, c))
    × (write_async_ptr tid reply obj len offset ud c ≡ (err x, c))
    × (splice_submit tid reply offset n ud c ≡ (err x, c))
    × (wait_completion tid w c ≡ (err x, c))
    × (peek_completion tid p c ≡ (err x, c))
    × (submit tid n c ≡ (err x, c))
    × (submit_and_wait tid n c ≡ (err x, c))

wait_completion_refused :
    (tid : ℕ) (w : Wait) (c : UringCtx) (x : Exception)
    → ensure_open tid c ≡ (err x, c)
    → wait_completion tid w c ≡ (err x, c)
unfolding wait_completion
wait_completion_refused tid (wait_failed e) c x h = ground arith
wait_completion_refused tid (cqe t r) c x h = ground arith

module _ (tid : ℕ) (reply : Submission) (obj len offset ud : ℕ) (n : ℤ) (w : Wait) (p : Peek)
    (c : UringCtx) where
  refused_calls :
      (x : Exception)
      → ensure_open tid c ≡ (err x, c)
      → ensure_open tid (record c { fresh = suc c.fresh })
        ≡ (err x, record c { fresh = suc c.fresh })
      → Refuses x c tid reply obj len offset ud n w p
  unfolding read_async write_async read_async_ptr write_async_ptr splice_submit peek_completion
      submit submit_and_wait
  refused_calls x e e' = (
    submit_and_track_raised tid reads "uring_read_async" obj len offset ud c reply x e,
    call_async_raised tid reads "uring_read_async" (pointer obj) len offset ud reply c x e,
    submit_and_track_raised tid reads "uring_read_async" c.fresh len offset ud
        (record c { fresh = suc c.fresh }) reply x e',
    submit_and_track_raised tid writes "uring_write_async" obj len offset ud c reply x e,
    submit_and_track_raised tid writes "uring_write_async" obj len offset ud c reply x e,
    call_async_raised tid writes "uring_write_async" (pointer obj) len offset ud reply c x e,
    ground arith,
    wait_completion_refused tid w c x e,
    ground arith,
    ground arith,
    ground arith,
  )

  -- On a closed context every asynchronous call, from any thread and whatever liburing would have
  -- answered, raises the "closed" error, reaches no native function and changes nothing.
  closed_calls : c.handle ≡ none → Refuses closed_error c tid reply obj len offset ud n w p
  closed_calls h = refused_calls closed_error guard guard'
    where
      guard : ensure_open tid c ≡ (err closed_error, c)
      guard = unfold ensure_open in ground arith

      guard' :
          ensure_open tid (record c { fresh = suc c.fresh })
          ≡ (err closed_error, record c { fresh = suc c.fresh })
      guard' = unfold ensure_open in ground arith

  -- With the thread check on, every asynchronous call from a thread other than the creating one
  -- raises the thread error, reaches no native function and changes nothing.
  foreign_thread_calls :
      (h t : ℕ)
      → c.handle ≡ some h
      → c.owner ≡ some t
      → tid ≢ t
      → Refuses thread_error c tid reply obj len offset ud n w p
  foreign_thread_calls h t e o ne = refused_calls thread_error guard guard'
    where
      guard : ensure_open tid c ≡ (err thread_error, c)
      guard = unfold ensure_open in ground arith

      guard' :
          ensure_open tid (record c { fresh = suc c.fresh })
          ≡ (err thread_error, record c { fresh = suc c.fresh })
      guard' = unfold ensure_open in ground arith

  -- On a closed context, and with the thread check on from a thread other than the creating one,
  -- every asynchronous call, whatever liburing would have answered, raises the error of that guard,
  -- reaches no native function and changes nothing.
  pub guarded_calls :
      (x : Exception)
      → ((c.handle ≡ none) × (x ≡ closed_error))
        ⊎ ((h : ℕ) × (t : ℕ) × (c.handle ≡ some h)
            × (c.owner ≡ some t)
            × (tid ≢ t)
            × (x ≡ thread_error))
      → Refuses x c tid reply obj len offset ud n w p
  guarded_calls x (inl a) = rw a.1 (closed_calls a.0)
  guarded_calls x (inr (h, t, open_now, owned, other, e)) =
      rw e (foreign_thread_calls h t open_now owned other)

-- `close` of an open context destroys exactly its handle and unpins every buffer; a second `close`
-- does nothing more. After it, from any thread and whatever liburing would have answered,
-- `read_async` of a `bytearray`, a `bytes` or a pointer with a length, `write_async` of a `bytearray`
-- or a `bytes`, `write_async_ptr`, `splice_submit`, `wait_completion`, `peek_completion`, `submit` and
-- `submit_and_wait` raise the "closed" error; they change nothing, but that `read_async` of a
-- `bytes` has made its copy.
pub close_lem :
    (c : UringCtx) (h : ℕ)
    → c.handle ≡ some h
    → ((close c).destroyed ≡ h ∷ c.destroyed)
      × ((close c).keepalive ≡ [])
      × ((close c).buffer_keepalive ≡ [])
      × (close (close c) ≡ close c)
      × ((tid : ℕ) (reply : Submission) (obj len offset ud : ℕ) (n : ℤ) (w : Wait) (p : Peek)
          → Refuses closed_error (close c) tid reply obj len offset ud n w p)
unfolding close
close_lem c h e = (
  ground arith,
  refl,
  refl,
  refl,
  λ tid reply obj len offset ud n w p.
      closed_calls tid reply obj len offset ud n w p (close c) refl,
)

-- The tag is tested after the entry went to the kernel. With a tag that an earlier call still pins,
-- `read_async` raises a `ValueError`, and yet its entry is in flight while the object that the
-- kernel writes into is pinned by nothing new.
read_async_duplicate :
    (tid obj len offset ud o : ℕ) (c : UringCtx)
    → ensure_open tid c ≡ (ok tt, c)
    → ud * 2 < u64_mod
    → lookup ud c.keepalive ≡ some o
    → read_async tid accepted (bytearray obj len) offset ud c ≡ (
      err value_error,
      record c { inflight = entry reads (object obj) len offset ud ∷ c.inflight },
    )
unfolding read_async submit_and_track
read_async_duplicate tid obj len offset ud o c e h held =
    ground
      (arith, call_async_accepted tid reads "uring_read_async" (object obj) len offset ud c e h)

-- A tag from 2^63 up comes back as a negative result. So `read_async` raises an error whose number
-- is `2^64` less the tag, though the entry is in flight, and the object stays unpinned.
read_async_big_tag :
    (tid obj len offset ud : ℕ) (c : UringCtx)
    → ensure_open tid c ≡ (ok tt, c)
    → u64_mod ≤ ud * 2
    → ud < u64_mod
    → read_async tid accepted (bytearray obj len) offset ud c ≡ (
      err (uring_error (make_error (pos (u64_mod - ud)) "uring_read_async" (at offset len))),
      record c { inflight = entry reads (object obj) len offset ud ∷ c.inflight },
    )
unfolding read_async submit_and_track call_async
read_async_big_tag tid obj len offset ud c e low high = ground (arith, same)
  where
    same : ud % u64_mod ≡ ud
    same = omega arith
