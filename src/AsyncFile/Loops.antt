-- ===== src/AsyncFile/Loops.antt =====
-- The read loops of pyuring/async_file.py on a device that serves the file.
use Prim.Native.Nat.add
use mathlib.Core.Path.{sym, subst}
use mathlib.Core.List.{append-nil, append_assoc}
use pyuring.Prelude.{
  sym, false, ltb, inr, ◌==◌, Bool-cases, inl, ◌∙◌, min, length-drop, ◌⊎◌, ap, ◌<◌, refl,
  length-take, ◌∷◌, ◌-◌, suc, ◌+◌, arith, ◌≡◌, ◌++◌, length, [], ◌≤◌, drop, take, List, ℕ,
}
use Prim.Native.Nat.{min, zero, suc, ℕ}
use pyuring.AsyncFile.State.{AsyncFile}
use pyuring.AsyncFile.Device.{read_uring_once_lem, Serves, after_transfer, IsReady}
use pyuring.AsyncFile.Io.{read_slice, read_uring_once, up_to_loop, Device}
use pyuring.Errors.{Result, ok}

pub length-take_le : (k : ℕ) (xs : List ℕ) → k ≤ length xs → length (take k xs) ≡ k
length-take_le k xs h = omega (arith, length-take k xs)

take-take_self : (k : ℕ) (xs : List ℕ) → take k (take k xs) ≡ take k xs
take-take_self zero xs = refl
take-take_self (suc k) [] = refl
take-take_self (suc k) (x ∷ xs) = ap (◌∷◌ x) (take-take_self k xs)

drop-nil : (p : ℕ) → drop {A = ℕ} p [] ≡ []
drop-nil zero = refl
drop-nil (suc p) = refl

take-nil : (p : ℕ) → take {A = ℕ} p [] ≡ []
take-nil zero = refl
take-nil (suc p) = refl

pub take-append_drop : (k m : ℕ) (xs : List ℕ) → take k xs ++ take m (drop k xs) ≡ take (k + m) xs
take-append_drop zero m xs = rw (add.zero m)
take-append_drop (suc k) m [] = rw (add.suc k m, take-nil m)
take-append_drop (suc k) m (x ∷ xs) = rw (add.suc k m) (ap (◌∷◌ x) (take-append_drop k m xs))

pub drop-drop : (k p : ℕ) (xs : List ℕ) → drop k (drop p xs) ≡ drop (p + k) xs
drop-drop k zero xs = rw (add.zero k)
drop-drop k (suc p) [] = rw (add.suc p k) (drop-nil k)
drop-drop k (suc p) (x ∷ xs) = rw (add.suc p k) (drop-drop k p xs)

-- Two reads in a row are one read of both lengths.
take-add :
    (k m p : ℕ) (xs : List ℕ)
    → take k (drop p xs) ++ take m (drop (p + k) xs) ≡ take (k + m) (drop p xs)
take-add k m p xs = rw (← drop-drop k p xs) (take-append_drop k m (drop p xs))

pub after_transfer-IsReady :
    (tid rounds k : ℕ) (f : AsyncFile)
    → IsReady tid (suc rounds) f
    → IsReady tid rounds (after_transfer f k)
after_transfer-IsReady tid rounds k f r = record {
  fd = r.fd;
  ctx = r.ctx;
  has_fd = r.has_fd;
  has_ring = r.has_ring;
  has_ua = r.has_ua;
  open_ring = r.open_ring;
  unpinned = r.unpinned;
  tags = omega (arith, r.tags);
}

-- What `m` bytes read from `f` on leave: the bytes in `out`, the file at `f'`.
pub record Moved (content : List ℕ) (n : ℕ) (f f' : AsyncFile) (m : ℕ) : Type 0 where
  pub steps : f'.pos ≡ f.pos + m
  pub within : m ≤ n
  pub inside : m ≤ length content - f.pos
  pub some_progress : (0 < m) ⊎ ((n ≡ 0) ⊎ (length content ≤ f.pos))

module _ (tid : ℕ) (content : List ℕ) (device : Device) (count : ℕ → ℕ → ℕ → ℕ)
    (s : Serves content device count) where
  -- The bytes of a round.
  abbrev pub piece : AsyncFile → ℕ → List ℕ
  piece f n = take (count f.next_ud f.pos n) (drop f.pos content)

  pub length-piece : (f : AsyncFile) (n : ℕ) → length (piece f n) ≡ count f.next_ud f.pos n
  length-piece f n =
      length-take_le (count f.next_ud f.pos n) (drop f.pos content)
        (omega (arith, s.inside f.next_ud f.pos n, length-drop f.pos content))

  pub round :
      (rounds n : ℕ) (f : AsyncFile)
      → 0 < n
      → IsReady tid (suc rounds) f
      → read_uring_once tid device n f
        ≡ (ok (piece f n), after_transfer f (count f.next_ud f.pos n))
  round rounds zero f h r = absurd (omega arith)
  round rounds (suc n) f h r =
      read_uring_once_lem tid rounds content device count n f s r
      ∙ ap (λ l. (ok l, after_transfer f (count f.next_ud f.pos (suc n))))
          (take-take_self (count f.next_ud f.pos (suc n)) (drop f.pos content))

  -- What a run of the loop leaves.
  abbrev pub Reads : ℕ → List ℕ → AsyncFile → Result (List ℕ) × AsyncFile → Type 0
  Reads n out f result =
      (f' : AsyncFile) × (m : ℕ) × (result ≡ (ok (out ++ take m (drop f.pos content)), f'))
      × Moved content n f f' m

  -- A first round of `k` bytes, and then `m` more.
  Reads-next :
      (n k : ℕ) (out : List ℕ) (f : AsyncFile) (result : Result (List ℕ) × AsyncFile)
      → 0 < k
      → k ≤ n
      → k ≤ length content - f.pos
      → Reads (n - k) (out ++ take k (drop f.pos content)) (after_transfer f k) result
      → Reads n out f result
  Reads-next n k out f result pos_k le inside (f', m, e, moved) = (
    f',
    k + m,
    e ∙ ap (λ l. (ok l, f')) (append_assoc out _ _ ∙ ap (◌++◌ out) (take-add k m f.pos content)),
    record {
      steps = omega (arith, moved.steps);
      within = omega (arith, moved.within);
      inside = omega (arith, moved.inside);
      some_progress = inl (omega arith);
    },
  )

  pub up_to_loop-Reads :
      (fuel n : ℕ) (out : List ℕ) (f : AsyncFile)
      → n ≤ fuel
      → IsReady tid fuel f
      → Reads n out f (up_to_loop fuel tid device n out f)
  unfolding up_to_loop
  up_to_loop-Reads zero zero out f h r = (f, 0, ground (arith, append-nil out), omega arith)
  up_to_loop-Reads zero (suc n) out f h r = absurd (omega arith)
  up_to_loop-Reads (suc fuel) zero out f h r = (f, 0, ground (arith, append-nil out), omega arith)
  up_to_loop-Reads (suc fuel) (suc n) out f h r = elim (Bool-cases (k == 0)) [
    | inl eof ↦ (
      after_transfer f k,
      0,
      ground (arith, first, len, append-nil out),
      record {
        steps = ground arith;
        within = omega arith;
        inside = omega arith;
        some_progress = inr (inr (ground (arith, s.progress f.next_ud f.pos chunk)));
      },
    )
    | inr more ↦ elim (Bool-cases (ltb k chunk)) [
      | inl short ↦ (
        after_transfer f k,
        k,
        ground (arith, first, len),
        record {
          steps = refl;
          within = omega (arith, at_most);
          inside = inside;
          some_progress = inl (ground arith);
        },
      )
      | inr full ↦ Reads-next (suc n) k out f _ (ground arith) (omega (arith, at_most)) inside (
          subst (Reads (suc n - k) (out ++ piece f chunk) (after_transfer f k))
            (sym (again more full))
            (up_to_loop-Reads fuel (suc n - k) (out ++ piece f chunk) (after_transfer f k)
              (ground arith) (after_transfer-IsReady tid fuel k f r)))
    ]
  ]
    where
      chunk : ℕ
      chunk = min (suc n) read_slice

      k : ℕ
      k = count f.next_ud f.pos chunk

      first : read_uring_once tid device chunk f ≡ (ok (piece f chunk), after_transfer f k)
      first = round fuel chunk f (omega arith) r

      len : length (piece f chunk) ≡ k
      len = length-piece f chunk

      at_most : k ≤ chunk
      at_most = s.at_most f.next_ud f.pos chunk

      inside : k ≤ length content - f.pos
      inside = s.inside f.next_ud f.pos chunk

      again :
          (k == 0) ≡ false
          → ltb k chunk ≡ false
          → up_to_loop (suc fuel) tid device (suc n) out f
            ≡ up_to_loop fuel tid device (suc n - k) (out ++ piece f chunk) (after_transfer f k)
      again more full = ground (arith, first, len)
