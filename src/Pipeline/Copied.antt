-- ===== src/Pipeline/Copied.antt =====
-- csrc/uring_wrap.c, `uring_copy_path_dynamic`: what a caller can rely on.
use pyuring.Prelude.{
  ap, sym, ◌∙◌, ℕ, ◌*◌, ◌<◌, ◌≤◌, ◌≡◌, refl, ◌≢◌, true, ◌⊎◌, inl, inr, [], length, arith,
  Bool-cases, ◌==◌, ℤ, pos, is_neg,
}
use pyuring.CApi.{CopyDynamicCall}
use pyuring.Pipeline.State.{word, File, empty_file}
use pyuring.Pipeline.Copy.{Run, finished, left, waiting}
use mathlib.Core.Path.{ap, sym, subst}
use pyuring.Pipeline.Path.{uring_copy_path_dynamic, Exit, returned, store, Outcome, conclude, World}
use pyuring.Pipeline.Outcomes.{copy_exits, source_job, Fits, truncated}
use pyuring.Pipeline.Ending.{Settled}
use pyuring.Pipeline.Seen.{Flushes}
use pyuring.Pipeline.Blocks.{All}
use pyuring.Pipeline.Soundness.{leaves, not_counted, Sound}

pub store_self : (files : ℕ → File) (i : ℕ) (f : File) → store files i f i ≡ f
unfolding store
store_self files i f = ground arith

pub store_ne : (files : ℕ → File) (i j : ℕ) (f : File) → i ≢ j → store files i f j ≡ files j
unfolding store
store_ne files i j f h = ground arith

abbrev pub source : World → CopyDynamicCall → File
source w call = w.files (w.inode call.src)

-- Emptying the destination can only make the source smaller.
pub truncated-size :
    (w : World) (call : CopyDynamicCall)
    → (truncated w call (w.inode call.src)).size ≤ (source w call).size
unfolding store
truncated-size w call = elim (Bool-cases (w.inode call.dst == w.inode call.src)) [
  | inl q ↦ simp q (omega arith)
  | inr q ↦ simp q (omega arith)
]

abbrev Returns : Outcome → Type 0
Returns o = (r : ℤ) × ((x : Exit) × (o ≡ returned r x))

conclude-Returns :
    (w : World) (call : CopyDynamicCall) (files : ℕ → File) (run : Run)
    → 2 * (source w call).size ≤ length w.turns
    → w.prime_left_queued ≡ 0
    → All Flushes w.turns
    → Settled (source_job w call) 0 w.prime_left_queued w.prime_sqe w.prime_submit w.turns run
    → Returns (conclude w (source_job w call) files run)
unfolding conclude
conclude-Returns w call files (finished t) h z f s = (_, (_, refl))
conclude-Returns w call files (left r t) h z f s = (_, (_, refl))
conclude-Returns w call files waiting h z f s =
    absurd (omega (arith, h, s (z, f), truncated-size w call))

-- For a queue depth below 2^32 and a block size of at most 64 MiB or no size callback, when every
-- submission that does not fail takes all entries that are queued: the copy always returns. After at
-- most two turns of its loop for every byte of the source, whatever calls and transfers fail or are
-- short, and in whatever order entries complete, it has come to an end.
pub copy_returns :
    (w : World) (call : CopyDynamicCall)
    → call.qd < word
    → Fits call
    → w.prime_left_queued ≡ 0
    → All Flushes w.turns
    → 2 * (source w call).size ≤ length w.turns
    → (r : ℤ) × ((x : Exit) × (uring_copy_path_dynamic w call ≡ returned r x))
copy_returns w call lt fits z flushes enough =
    copy_exits w call Returns lt fits (λ r n. (r, (_, refl))) (λ r n. (r, (_, refl)))
      (λ run s. conclude-Returns w call (truncated w call) run enough z flushes s)

pub seen_source :
    (w : World) (call : CopyDynamicCall)
    → w.inode call.src ≢ w.inode call.dst
    → truncated w call (w.inode call.src) ≡ w.files (w.inode call.src)
seen_source w call apart =
    store_ne w.files (w.inode call.dst) (w.inode call.src) empty_file (λ q. apart (sym q))

module _ (w : World) (call : CopyDynamicCall) (x : Exit) (lt : call.qd < word) (fits : Fits call)
    (apart : w.inode call.src ≢ w.inode call.dst) where
  abbrev result : File
  result = x.files (w.inode call.dst)

  abbrev Spares : ℤ → Type 0
  Spares r =
      (x.files ≡ w.files)
      ⊎ (Sound (source w call) r result
          × ((j : ℕ) → x.files j ≡ store w.files (w.inode call.dst) result j))

  spares :
      (r : ℤ)
      → uring_copy_path_dynamic w call ≡ returned r x
      → ((is_neg r ≡ true) × (x.files ≡ w.files))
        ⊎ (Sound (source w call) r result
            × ((j : ℕ) → x.files j ≡ store w.files (w.inode call.dst) result j))
  spares r q = elim (leaves w call r x lt fits q) [
    | inl h ↦ inl h
    | inr (g, (others, sound)) ↦
        let at_dst : result ≡ g =
          others (w.inode call.dst) ∙ store_self w.files (w.inode call.dst) g in
        inr (
          subst (λ h. Sound (source w call) r h) (sym at_dst)
              (subst (λ f. Sound f r g) (seen_source w call apart) sound),
          (λ j. others j ∙ ap (λ h. store w.files (w.inode call.dst) h j) (sym at_dst)),
        )
  ]

  success :
      (n : ℕ)
      → uring_copy_path_dynamic w call ≡ returned (pos n) x
      → Sound (source w call) (pos n) result
  success n q = elim (spares (pos n) q) [
    | inl h ↦ absurd (not_counted (pos n) n h.0 refl)
    | inr h ↦ h.0
  ]

-- For a queue depth below 2^32 and a block size of at most 64 MiB or no size callback: a copy
-- that returns the size of its source is a copy. The destination, another file than the source,
-- has that size and holds every byte, whatever turns the pipeline has taken: reads and writes may
-- have completed in any order, failed or been short, and an empty source has an empty copy.
pub copy_exact :
    (w : World) (call : CopyDynamicCall) (x : Exit)
    → call.qd < word
    → Fits call
    → w.inode call.src ≢ w.inode call.dst
    → uring_copy_path_dynamic w call ≡ returned (pos (w.files (w.inode call.src)).size) x
    → ((x.files (w.inode call.dst)).size ≡ (w.files (w.inode call.src)).size)
      × ((i : ℕ)
          → i < (w.files (w.inode call.src)).size
          → (x.files (w.inode call.dst)).bytes i ≡ (w.files (w.inode call.src)).bytes i)
copy_exact w call x lt fits apart q =
    let sound = success w call x lt fits apart _ q in (sound.all refl, sound.exact refl)

-- For a queue depth below 2^32 and a block size of at most 64 MiB or no size callback, and a
-- destination that is not the source: when the copy returns with no entry in flight, whatever it
-- returns, no file has changed, or no other file than the destination has, which is no longer
-- than the source and of which each byte is zero or the source's.
pub copy_never_corrupts :
    (w : World) (call : CopyDynamicCall) (r : ℤ) (x : Exit)
    → call.qd < word
    → Fits call
    → w.inode call.src ≢ w.inode call.dst
    → uring_copy_path_dynamic w call ≡ returned r x
    → x.pending ≡ []
    → (i j : ℕ)
    → (x.files ≡ w.files)
      ⊎ ((x.files j ≡ store w.files (w.inode call.dst) (x.files (w.inode call.dst)) j)
          × ((x.files (w.inode call.dst)).size ≤ (w.files (w.inode call.src)).size)
          × (((x.files (w.inode call.dst)).bytes i ≡ 0)
              ⊎ ((x.files (w.inode call.dst)).bytes i ≡ (w.files (w.inode call.src)).bytes i)))
copy_never_corrupts w call r x lt fits apart q none_left i j =
    elim (spares w call x lt fits apart r q) [
      | inl h ↦ inl h.1
      | inr h ↦ inr (h.1 j, h.0.extent, h.0.clean i)
    ]
