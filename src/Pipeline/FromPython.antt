-- ===== src/Pipeline/FromPython.antt =====
-- `copy` of pyuring/_easy.py over `uring_copy_path` and `uring_copy_path_dynamic` of csrc/uring_wrap.c:
-- what a success of the Python function says of the file.
use text.Mathlib.Text.{◌==◌ as str_eq}
use mathlib.Core.Path.{sym, ap}
use pyuring.Prelude.{
  ◌∙◌, ap, sym, ℕ, ◌*◌, ◌<◌, ◌≤◌, ◌≡◌, refl, ◌≢◌, inl, inr, length, arith, none, Bool-cases, ℤ, pos,
  negsuc, String, Bool, ◌||◌, not, Option,
}
use pyuring.Errors.{Result, ok, err, raise_for_neg_errno}
use pyuring.CApi
use pyuring.CApi.{Pipelines, CopyCall, CopyDynamicCall, SizeCallback, ProgressCallback, finish}
use pyuring.Easy.Tuning.{Float64, resolve_copy_tuning, validate_mode, copy_fsync}
use pyuring.Easy.Entry.{copy, given, ◌>>=◌}
use pyuring.Ctx.State.{mask32}
use pyuring.Sync.Masks.{mask32-<}
use pyuring.Pipeline.State.{word, buffer_cap}
use pyuring.Pipeline.Path.{World, Exit, returned, uring_copy_path, uring_copy_path_dynamic}
use pyuring.Pipeline.Copied.{copy_returns, copy_exact}
use pyuring.Pipeline.Seen.{Flushes}
use pyuring.Pipeline.Blocks.{All}

-- The library that ctypes has loaded returns what the C functions return in the world w.
pub record Loaded (w : World) (lib : Pipelines) : Type 0 where
  pub static :
      (c : CopyCall) (r : ℤ) (x : Exit)
      → uring_copy_path w c ≡ returned r x
      → lib.uring_copy_path c ≡ r
  pub dynamic :
      (c : CopyDynamicCall) (r : ℤ) (x : Exit)
      → uring_copy_path_dynamic w c ≡ returned r x
      → lib.uring_copy_path_dynamic c ≡ r

bind_ok :
    {A B : Type 0} (m : Result A) (f : A → Result B) (b : B)
    → (m >>= f) ≡ ok b
    → (a : A) × ((m ≡ ok a) × (f a ≡ ok b))
bind_ok (ok a) f b h = (a, (refl, h))
bind_ok (err e) f b h = absurd (ground arith)

finish_ok : (ret : ℤ) (operation : String) (n : ℕ) → finish ret operation ≡ ok (pos n) → ret ≡ pos n
unfolding raise_for_neg_errno
finish_ok (pos k) operation n h = ground arith
finish_ok (negsuc k) operation n h = absurd (ground arith)

-- A call of the pipeline from src to dst, with this depth and block size, that has returned n.
abbrev pub Started : World → String → String → ℕ → ℕ → ℕ → Type 0
Started w src dst qd block n =
    (c : CopyDynamicCall) × ((c.src ≡ src)
      × (c.dst ≡ dst)
      × (c.qd ≡ qd)
      × (c.block_size ≡ block)
      × ((x : Exit) × (uring_copy_path_dynamic w c ≡ returned (pos n) x)))

module _ (w : World) (lib : Pipelines) (loaded : Loaded w lib) (n : ℕ) where
  dynamic-Started :
      (c : CopyDynamicCall) (operation : String)
      → c.qd < word
      → c.block_size ≤ buffer_cap
      → w.prime_left_queued ≡ 0
      → All Flushes w.turns
      → 2 * (w.files (w.inode c.src)).size ≤ length w.turns
      → finish (lib.uring_copy_path_dynamic c) operation ≡ ok (pos n)
      → Started w c.src c.dst c.qd c.block_size n
  dynamic-Started c operation lt le z flushes enough h =
      let (r, (x, e)) = copy_returns w c lt (inl le) z flushes enough in
      let same : r ≡ pos n = sym (loaded.dynamic c r x e) ∙ finish_ok _ operation n h in
      (c, (refl, refl, refl, refl, (x, e ∙ ap (λ q. returned q x) same)))

  static-Started :
      (c : CopyCall) (operation : String)
      → c.qd < word
      → c.block_size ≤ buffer_cap
      → w.prime_left_queued ≡ 0
      → All Flushes w.turns
      → 2 * (w.files (w.inode c.src)).size ≤ length w.turns
      → finish (lib.uring_copy_path c) operation ≡ ok (pos n)
      → Started w c.src c.dst c.qd c.block_size n
  unfolding uring_copy_path
  static-Started c operation lt le z flushes enough h =
      let plain : CopyDynamicCall = record {
        src = c.src;
        dst = c.dst;
        qd = c.qd;
        block_size = c.block_size;
        size_cb = none;
        fsync = 0;
        progress_cb = none;
      } in
      let (r, (x, e)) = copy_returns w plain lt (inl le) z flushes enough in
      let same : r ≡ pos n = sym (loaded.static c r x e) ∙ finish_ok _ operation n h in
      (plain, (refl, refl, refl, refl, (x, e ∙ ap (λ q. returned q x) same)))

  copy-Started :
      (F : Float64) (src dst mode : String) (qd block : ℤ) (fsync : Bool) (policy : String)
      (size_cb : Option SizeCallback) (progress_cb : Option ProgressCallback)
      → mask32 (resolve_copy_tuning mode qd block).1 ≤ buffer_cap
      → w.prime_left_queued ≡ 0
      → All Flushes w.turns
      → 2 * (w.files (w.inode src)).size ≤ length w.turns
      → copy F lib src dst mode qd block fsync policy size_cb progress_cb ≡ ok (pos n)
      → Started w src dst
          (mask32 (resolve_copy_tuning mode qd block).0)
          (mask32 (resolve_copy_tuning mode qd block).1)
          n
  unfolding copy CApi.copy_path_dynamic CApi.copy_path
  copy-Started F src dst mode qd block fsync policy size_cb progress_cb le z flushes enough h =
      let (u, (valid, h1)) = bind_ok (validate_mode mode) _ _ h in
      let (f, (flag, h2)) = bind_ok (copy_fsync policy fsync) _ _ h1 in
      elim (Bool-cases (str_eq mode "auto")) [
        | inl a ↦
            dynamic-Started _ "uring_copy_path_dynamic" (mask32-< _) le z flushes enough
              (simp a at h2)
        | inr a ↦
            elim (Bool-cases
              (given progress_cb || (not (str_eq policy "default") || given size_cb))) [
                | inl b ↦
                    dynamic-Started _ "uring_copy_path_dynamic" (mask32-< _) le z flushes enough
                      (simp (a, b) at h2)
                | inr b ↦
                    static-Started _ "uring_copy_path" (mask32-< _) le z flushes enough
                      (simp (a, b) at h2)
              ]
      ]

-- When copy of pyuring/_easy.py returns the size of its source, in any mode and by any route, the
-- pipeline has returned this size to a call with its two paths and with the depth and the block size
-- that the mode gives, as `unsigned`, and the destination, another file, has the size and every byte
-- of the source. The library returns what the C functions return, every submission takes what is
-- queued, two turns of the loop for every byte are seen, and this block size is at most 64 MiB.
pub copy_copies :
    (w : World) (lib : Pipelines) (F : Float64) (src dst mode : String) (qd block : ℤ)
    (fsync : Bool) (policy : String) (size_cb : Option SizeCallback)
    (progress_cb : Option ProgressCallback)
    → Loaded w lib
    → mask32 (resolve_copy_tuning mode qd block).1 ≤ buffer_cap
    → w.prime_left_queued ≡ 0
    → All Flushes w.turns
    → 2 * (w.files (w.inode src)).size ≤ length w.turns
    → w.inode src ≢ w.inode dst
    → copy F lib src dst mode qd block fsync policy size_cb progress_cb
      ≡ ok (pos (w.files (w.inode src)).size)
    → (c : CopyDynamicCall) × ((c.src ≡ src)
        × (c.dst ≡ dst)
        × (c.qd ≡ mask32 (resolve_copy_tuning mode qd block).0)
        × (c.block_size ≡ mask32 (resolve_copy_tuning mode qd block).1)
        × ((x : Exit) × ((uring_copy_path_dynamic w c
                ≡ returned (pos (w.files (w.inode src)).size) x)
              × ((x.files (w.inode dst)).size ≡ (w.files (w.inode src)).size)
              × ((i : ℕ)
                  → i < (w.files (w.inode src)).size
                  → (x.files (w.inode dst)).bytes i ≡ (w.files (w.inode src)).bytes i))))
copy_copies w lib F src dst mode qd block fsync policy size_cb progress_cb loaded le z flushes
      enough apart h =
    let (c, (s, d, q, b, (x, e))) =
      copy-Started w lib loaded (w.files (w.inode src)).size F src dst mode qd block fsync policy
        size_cb progress_cb le z flushes enough h in
    let same =
      copy_exact w c x (rw q (mask32-< _)) (inl (rw b le))
        (λ k. apart (ap w.inode (sym s) ∙ k ∙ ap w.inode d))
        (e ∙ ap (λ p. returned (pos (w.files (w.inode p)).size) x) (sym s)) in
    let sized =
      ap (λ p. (x.files (w.inode p)).size) (sym d)
      ∙ same.0
      ∙ ap (λ p. (w.files (w.inode p)).size) s in
    (
      c,
      (
        s,
        d,
        q,
        b,
        (
          x,
          (
            e,
            sized,
            (λ i lt.
                ap (λ p. (x.files (w.inode p)).bytes i) (sym d)
                ∙ same.1 i (rw s lt)
                ∙ ap (λ p. (w.files (w.inode p)).bytes i) s),
          ),
        ),
      ),
    )
