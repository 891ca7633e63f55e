-- ===== src/Aio/Transfers.antt =====
-- `sendfile_splice` of pyuring/aio.py on a file that can be spliced.
use mathlib.Core.Path.{ap}
use pyuring.Prelude.{
  ltb→lt, Bool-cases, inr, inl, Option-cases, ℕ, zero, suc, ◌+◌, ◌-◌, ◌*◌, ◌<◌, ◌≤◌, ◌≡◌, refl, min,
  false, Option, none, some, ◌∷◌, pos, ltb, arith,
}
use pyuring.Errors.{ok}
use pyuring.Ctx.State.{Op, UringCtx, splices, pointer, mask32, u64_mod}
use pyuring.Ctx.State
use pyuring.Ctx.Careful.{entry, tag_fits}
use pyuring.Ctx.Async.{accepted, splice_submit}
use pyuring.Aio.Streams.{returned, Kernel, next_length, received, send_loop, sendfile_splice}

-- liburing takes every entry, and a splice of `n > 0` bytes at `off` in a file of `size` bytes moves
-- at least one byte and at most `n`, none past the end; at the end it moves none.
pub record Splices (size ud : ℕ) (kernel : Kernel) (count : ℕ → ℕ → ℕ → ℕ) : Type 0 where
  pub answer :
      (k off n : ℕ)
      → kernel k off n ≡ record { submission = accepted; completion = ok (ud, pos (count k off n)) }
  pub fits : (k off n : ℕ) → count k off n ≤ min n (size - off)
  pub moves : (k off n : ℕ) → 0 < n → off < size → 0 < count k off n

-- A ring that the thread may use; a submission leaves it so.
abbrev pub Usable : ℕ → UringCtx → Type 0
Usable tid c = State.ensure_open tid c ≡ (ok tt, c)

splice_lem :
    (tid off n ud : ℕ) (c : UringCtx)
    → Usable tid c
    → ud * 2 < u64_mod
    → splice_submit tid accepted off (pos n) ud c ≡ (
      ok (pos ud),
      record c { inflight = entry splices (pointer 0) (mask32 (pos n)) off ud ∷ c.inflight },
    )
unfolding splice_submit
splice_lem tid off n ud c u h = ground (arith, tag_fits ud h)

submitted-Usable :
    (tid : ℕ) (op : Op) (c : UringCtx)
    → Usable tid c
    → Usable tid (record c { inflight = op ∷ c.inflight })
unfolding State.ensure_open
submitted-Usable tid op c u = ground arith

-- The bytes still to move.
abbrev pub left : Option ℕ → ℕ → ℕ → ℕ
left none total rest = rest
left (some count) total rest = min (count - total) rest

left-none :
    (limit : Option ℕ) (chunk total rest : ℕ)
    → next_length limit chunk total ≡ none
    → left limit total rest ≡ 0
unfolding next_length
left-none none chunk total rest e = ground arith
left-none (some count) chunk total rest e = ground arith

left-done : (limit : Option ℕ) (total : ℕ) → left limit total 0 ≡ 0
left-done none total = refl
left-done (some count) total = omega arith

next_length-pos :
    (limit : Option ℕ) (chunk total n : ℕ)
    → 0 < chunk
    → next_length limit chunk total ≡ some n
    → 0 < n
unfolding next_length
next_length-pos none chunk total n p e = ground arith
next_length-pos (some count) chunk total n p e = ground arith

next_length-le :
    (limit : Option ℕ) (chunk total n : ℕ) → next_length limit chunk total ≡ some n → n ≤ chunk
unfolding next_length
next_length-le none chunk total n e = ground arith
next_length-le (some count) chunk total n e = ground arith

mask32_small : (n : ℕ) → n < 4294967296 → mask32 (pos n) ≡ n
unfolding mask32
mask32_small n h = omega (arith, h)

left-round :
    (limit : Option ℕ) (chunk total n m size off : ℕ)
    → next_length limit chunk total ≡ some n
    → m ≤ min n (size - off)
    → total + m + left limit (total + m) (size - (off + m)) ≡ total + left limit total (size - off)
unfolding next_length
left-round none chunk total n m size off e h = omega arith
left-round (some count) chunk total n m size off e h = ground arith

received-zero : (ud : ℕ) → received ud (ok (ud, pos 0)) ≡ ok none
unfolding received
received-zero ud = ground arith

received-suc : (ud m : ℕ) → 0 < m → received ud (ok (ud, pos m)) ≡ ok (some m)
unfolding received
received-suc ud zero h = absurd (omega arith)
received-suc ud (suc m) h = ground arith

module _ (tid size ud chunk : ℕ) (kernel : Kernel) (count : ℕ → ℕ → ℕ → ℕ)
    (s : Splices size ud kernel count) (limit : Option ℕ) (u64 : ud * 2 < u64_mod)
    (some_chunk : 0 < chunk) (word_chunk : chunk < 4294967296) where
  finished :
      (fuel off total : ℕ) (c : UringCtx)
      → next_length limit chunk total ≡ none
      → send_loop tid kernel limit chunk ud (suc fuel) off total c ≡ (returned total, c)
  unfolding send_loop
  finished fuel off total c e = ground arith

  -- One round that moves `m` bytes.
  round :
      (fuel off total n : ℕ) (c : UringCtx)
      → Usable tid c
      → next_length limit chunk total ≡ some n
      → 0 < n
      → n < 4294967296
      → off < size
      → let m = count fuel off n in
        send_loop tid kernel limit chunk ud (suc fuel) off total c
        ≡ send_loop tid kernel limit chunk ud fuel
            (off + m)
            (total + m)
            (record c { inflight = entry splices (pointer 0) (mask32 (pos n)) off ud ∷ c.inflight })
  unfolding send_loop
  round fuel off total n c u e p small h = ground (
    arith,
    mask32_small n small,
    s.answer fuel off n,
    splice_lem tid off n ud c u u64,
    received-suc ud (count fuel off n) (s.moves fuel off n p h),
  )

  last_round :
      (fuel off total n : ℕ) (c : UringCtx)
      → Usable tid c
      → next_length limit chunk total ≡ some n
      → n < 4294967296
      → size ≤ off
      → (send_loop tid kernel limit chunk ud (suc fuel) off total c).0 ≡ returned total
  unfolding send_loop
  last_round fuel off total n c u e small h = ground (
    arith,
    mask32_small n small,
    s.answer fuel off n,
    splice_lem tid off n ud c u u64,
    none_moved,
    received-zero ud,
  )
    where
      none_moved : count fuel off n ≡ 0
      none_moved = omega (arith, s.fits fuel off n)

  pub send_loop_lem :
      (fuel off total : ℕ) (c : UringCtx)
      → Usable tid c
      → size - off < fuel
      → (send_loop tid kernel limit chunk ud fuel off total c).0
        ≡ returned (total + left limit total (size - off))
  send_loop_lem zero off total c u h = absurd (omega arith)
  send_loop_lem (suc fuel) off total c u h = elim (Option-cases (next_length limit chunk total)) [
    | inl e ↦ rw (finished fuel off total c e, none_left e) (ap returned (omega arith))
    | inr (n, e) ↦ elim (Bool-cases (ltb off size)) [
      | inl b ↦
          let m = count fuel off n in
          let p : 0 < n = next_length-pos limit chunk total n some_chunk e in
          let q : off < size = ltb→lt off size b in
          let small : n < 4294967296 =
            omega (arith, word_chunk, next_length-le limit chunk total n e) in
          rw
            (
              round fuel off total n c u e p small q,
              send_loop_lem fuel (off + m) (total + m) _
                  (submitted-Usable tid (entry splices (pointer 0) (mask32 (pos n)) off ud) c u)
                  (less m (s.moves fuel off n p q) q),
              left-round limit chunk total n m size off e (s.fits fuel off n),
            )
            refl
      | inr b ↦
          rw
            (
              last_round fuel off total n c u e
                  (omega (arith, word_chunk, next_length-le limit chunk total n e)) (over b),
              at_end b,
              left-done limit total,
            )
            (ap returned (omega arith))
    ]
  ]
    where
      none_left : next_length limit chunk total ≡ none → left limit total (size - off) ≡ 0
      none_left = left-none limit chunk total (size - off)

      over : ltb off size ≡ false → size ≤ off
      over b = ground arith

      at_end : ltb off size ≡ false → size - off ≡ 0
      at_end b = ground arith

      less : (m : ℕ) → 0 < m → off < size → size - (off + m) < fuel
      less m p q = omega (arith, h)

-- On a ring that its thread may use, with a tag that fits a signed 64-bit result and a positive
-- chunk below 2^32, and when every splice is taken, completes under its tag and moves at least a byte
-- before the end of the file, at most what is asked and left: `sendfile_splice` returns after at most
-- one round more than the file has bytes behind the offset; and it returns how many bytes it moved:
-- all of those, or `count` if that is less.
pub sendfile_splice_lem :
    (tid size ud chunk offset fuel : ℕ) (limit : Option ℕ) (kernel : Kernel) (count : ℕ → ℕ → ℕ → ℕ)
    (c : UringCtx)
    → Splices size ud kernel count
    → ud * 2 < u64_mod
    → 0 < chunk
    → chunk < 4294967296
    → State.ensure_open tid c ≡ (ok tt, c)
    → size - offset < fuel
    → (sendfile_splice tid kernel fuel offset limit chunk ud c).0
      ≡ returned (left limit 0 (size - offset))
unfolding sendfile_splice
sendfile_splice_lem tid size ud chunk offset fuel limit kernel count c s u p w o h =
    rw (send_loop_lem tid size ud chunk kernel count s limit u p w fuel offset 0 c o h)
      (ap returned (omega arith))
