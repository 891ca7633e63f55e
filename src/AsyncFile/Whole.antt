-- ===== src/AsyncFile/Whole.antt =====
-- `AsyncFile.read` of pyuring/async_file.py: up to a number of bytes, and to the end of the file.
use mathlib.Core.List.{append-nil, append_assoc}
use mathlib.Core.Path.{subst}
use pyuring.Prelude.{
  length-drop, inr, ◌∙◌, pos, negsuc, ℤ, take-append-drop, inl, Bool-cases, ltb, ◌==◌, ◌+◌, refl,
  ◌++◌, some, ap, ◌*◌, Option, ◌<◌, ◌∷◌, [], ◌-◌, take, false, drop, min, ◌≤◌, ◌≡◌, length, List, ℕ,
  zero, suc, arith, sym,
}
use pyuring.AsyncFile.State.{AsyncFile}
use pyuring.AsyncFile.Io.{
  up_to_loop, read_uring_up_to, read, read_uring_once, read_slice, until_eof_loop, Device,
}
use pyuring.AsyncFile.Device.{
  read-read_uring, IsOpen, assert_ready_lem, after_transfer, IsReady, Serves,
}
use pyuring.Errors.{ok, Result}
use pyuring.AsyncFile.Loops.{
  after_transfer-IsReady, up_to_loop-Reads, Moved, drop-drop, length-piece, round, piece,
}

take-all : (k : ℕ) (xs : List ℕ) → length xs ≤ k → take k xs ≡ xs
take-all zero [] h = refl
take-all zero (x ∷ xs) h = absurd (omega arith)
take-all (suc k) [] h = refl
take-all (suc k) (x ∷ xs) h = ap (◌∷◌ x) (take-all k xs (omega arith))

drop-all : (k : ℕ) (xs : List ℕ) → length xs ≤ k → drop k xs ≡ []
drop-all zero [] h = refl
drop-all zero (x ∷ xs) h = absurd (omega arith)
drop-all (suc k) [] h = refl
drop-all (suc k) (x ∷ xs) h = drop-all k xs (omega arith)

-- A device without short reads: it stops before the request only at the end of the file.
abbrev pub IsFull : List ℕ → (ℕ → ℕ → ℕ → ℕ) → Type 0
IsFull content count = (ud at n : ℕ) → count ud at n ≡ min n (length content - at)

module _ (tid : ℕ) (content : List ℕ) (device : Device) (count : ℕ → ℕ → ℕ → ℕ)
    (s : Serves content device count) where
  -- What a read to the end leaves.
  abbrev ReadsAll : List ℕ → AsyncFile → Result (Option (List ℕ)) × AsyncFile → Type 0
  ReadsAll out f result =
      (f' : AsyncFile) × (result ≡ (ok (some (out ++ drop f.pos content)), f'))
      × (f'.pos ≡ f.pos + (length content - f.pos))

  ReadsAll-next :
      (k : ℕ) (out : List ℕ) (f : AsyncFile) (result : Result (Option (List ℕ)) × AsyncFile)
      → k ≤ length content - f.pos
      → ReadsAll (out ++ take k (drop f.pos content)) (after_transfer f k) result
      → ReadsAll out f result
  ReadsAll-next k out f result inside (f', e, p) = (
    f',
    e ∙ ap (λ l. (ok (some l), f')) (append_assoc out _ _ ∙ ap (◌++◌ out) join),
    omega (arith, p),
  )
    where
      join : take k (drop f.pos content) ++ drop (f.pos + k) content ≡ drop f.pos content
      join = rw (← drop-drop k f.pos content) (take-append-drop k (drop f.pos content))

  until_eof_loop-ReadsAll :
      (fuel : ℕ) (out : List ℕ) (f : AsyncFile)
      → IsFull content count
      → length content - f.pos < fuel * read_slice
      → IsReady tid fuel f
      → ReadsAll out f (until_eof_loop fuel tid device out f)
  unfolding until_eof_loop
  until_eof_loop-ReadsAll zero out f full h r = absurd (omega arith)
  until_eof_loop-ReadsAll (suc fuel) out f full h r = elim (Bool-cases (k == 0)) [
    | inl eof ↦ (
      after_transfer f k,
      ground (arith, first, len, drop-all f.pos content (ground (arith, size)), append-nil out),
      ground (arith, size),
    )
    | inr more ↦ elim (Bool-cases (ltb k read_slice)) [
      | inl short ↦ (
        after_transfer f k,
        ground (
          arith,
          first,
          len,
          take-all k (drop f.pos content) (ground (arith, size, length-drop f.pos content)),
        ),
        ground (arith, size),
      )
      | inr whole ↦ ReadsAll-next k out f _ (omega (arith, size)) (
          subst (ReadsAll (out ++ take k (drop f.pos content)) (after_transfer f k))
            (sym (again more whole))
            (until_eof_loop-ReadsAll fuel (out ++ take k (drop f.pos content)) (after_transfer f k)
              full (ground (arith, size)) (after_transfer-IsReady tid fuel k f r)))
    ]
  ]
    where
      k : ℕ
      k = count f.next_ud f.pos read_slice

      size : k ≡ min read_slice (length content - f.pos)
      size = full f.next_ud f.pos read_slice

      first :
          read_uring_once tid device read_slice f
          ≡ (ok (piece tid content device count s f read_slice), after_transfer f k)
      first = round tid content device count s fuel read_slice f (omega arith) r

      len : length (piece tid content device count s f read_slice) ≡ k
      len = length-piece tid content device count s f read_slice

      again :
          (k == 0) ≡ false
          → ltb k read_slice ≡ false
          → until_eof_loop (suc fuel) tid device out f
            ≡ until_eof_loop fuel tid device
                (out ++ take k (drop f.pos content))
                (after_transfer f k)
      again more whole = ground (arith, first, len)

  read_opened :
      (fuel n : ℕ) (threaded : ℤ → Result (List ℕ)) (f : AsyncFile) (l : List ℕ) (f' : AsyncFile)
      → IsOpen f
      → IsReady tid n f
      → up_to_loop n tid device n [] f ≡ (ok l, f')
      → read fuel tid device threaded (pos n) f ≡ (ok (some l), f')
  unfolding read_uring_up_to up_to_loop
  read_opened fuel zero threaded f l f' o r e =
      read-read_uring fuel tid device threaded (pos 0) f refl o
      ∙ ground (arith, assert_ready_lem tid 0 f r)
  read_opened fuel (suc n) threaded f l f' o r e =
      read-read_uring fuel tid device threaded (pos (suc n)) f (ground arith) o
      ∙ ground (arith, assert_ready_lem tid (suc n) f r)

  -- `read(n)` for a number of bytes: whatever the device moves at a time, the result is the next
  -- `m` bytes of the file, at most `n` of them and none past the end, and the position steps by
  -- `m`. At least one byte comes unless none was asked for or the position is at the end.
  pub read_n :
      (fuel n : ℕ) (threaded : ℤ → Result (List ℕ)) (f : AsyncFile)
      → IsOpen f
      → IsReady tid n f
      → (f' : AsyncFile) × (m : ℕ) × (read fuel tid device threaded (pos n) f
          ≡ (ok (some (take m (drop f.pos content))), f'))
        × Moved content n f f' m
  unfolding up_to_loop
  read_n fuel zero threaded f o r = (
    f,
    0,
    read_opened fuel zero threaded f [] f o r refl,
    record {
      steps = omega arith;
      within = omega arith;
      inside = omega arith;
      some_progress = inr (inl refl);
    },
  )
  read_n fuel (suc n) threaded f o r =
      let (f', m, e, moved) =
        up_to_loop-Reads tid content device count s (suc n) (suc n) [] f (omega arith) r in
      (f', m, read_opened fuel (suc n) threaded f _ f' o r e, moved)

  -- `read()` to the end, on a device without short reads: all the rest of the file comes, and the
  -- position is at its end. One round more than the slices left is enough.
  pub read_all :
      (fuel : ℕ) (threaded : ℤ → Result (List ℕ)) (f : AsyncFile)
      → IsFull content count
      → IsOpen f
      → length content - f.pos < fuel * read_slice
      → IsReady tid fuel f
      → (f' : AsyncFile) × (read fuel tid device threaded (negsuc 0) f
          ≡ (ok (some (drop f.pos content)), f'))
        × (f'.pos ≡ f.pos + (length content - f.pos))
  read_all fuel threaded f full o h r =
      let (f', e, p) = until_eof_loop-ReadsAll fuel [] f full h r in
      (
        f',
        read-read_uring fuel tid device threaded (negsuc 0) f refl o
            ∙ ground (arith, assert_ready_lem tid fuel f r),
        p,
      )

  -- A short read ends `read()` to the end: when the first transfer moves `k` bytes, more than none
  -- and fewer than a slice, they are all that comes, however much of the file is left.
  read_all_short :
      (fuel : ℕ) (threaded : ℤ → Result (List ℕ)) (f : AsyncFile)
      → IsOpen f
      → IsReady tid (suc fuel) f
      → 0 < count f.next_ud f.pos read_slice
      → count f.next_ud f.pos read_slice < read_slice
      → let k = count f.next_ud f.pos read_slice in
        read (suc fuel) tid device threaded (negsuc 0) f
        ≡ (ok (some (take k (drop f.pos content))), after_transfer f k)
  unfolding until_eof_loop
  read_all_short fuel threaded f o r lo hi =
      read-read_uring (suc fuel) tid device threaded (negsuc 0) f refl o
      ∙ ground (
        arith,
        assert_ready_lem tid (suc fuel) f r,
        round tid content device count s fuel read_slice f (omega arith) r,
        length-piece tid content device count s f read_slice,
      )
