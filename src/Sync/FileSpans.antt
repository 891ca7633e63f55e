-- ===== src/Sync/FileSpans.antt =====
-- What C reads and writes for the methods on files.
use pyuring.Sync.Files
use pyuring.Sync.Outputs
use pyuring.Sync.Accepted.{with_buffer-WhenOk, WhenOk, unless-WhenOk}
use pyuring.Prelude.{arith, String, List, ℕ, Bool, ℤ}
use pyuring.Sync.Spans.{Fits}
use pyuring.Sync.Request.{Buffer}
use pyuring.Sync.Lengths.{length-map_≤}
use mathlib.Core.Bool.{false, true}

offsets_request-Fits :
    (i : ℤ) (n : ℕ) (ns : List ℕ) (b : Bool) → Fits (Outputs.offsets_request i n ns b)
offsets_request-Fits i n ns true = (omega arith, (omega arith, tt))
offsets_request-Fits i n ns false = (omega arith, (length-map_≤ _ ns, tt))

-- The requests of the methods on files and paths that pass a pointer to memory.
abbrev pub FileMethodsFit : Type 0
FileMethodsFit =
    ((b : Bool) (buf : Buffer) (i : ℤ) → WhenOk Fits (Files.madvise b buf i))
    × ((s : String) (i i2 i3 : ℤ) → Fits (Files.statx s i i2 i3))
    × ((s s2 : String) (buf : Buffer) → WhenOk Fits (Files.getxattr s s2 buf))
    × ((s s2 : String) (buf : Buffer) (i : ℤ) → Fits (Files.setxattr s s2 buf i))
    × ((i : ℤ) (s : String) (buf : Buffer) → WhenOk Fits (Files.fgetxattr i s buf))
    × ((i : ℤ) (s : String) (buf : Buffer) (i2 : ℤ) → Fits (Files.fsetxattr i s buf i2))
    × ((i : ℤ) (n n2 : ℕ) → Fits (Outputs.read_request i n n2))
    × ((i : ℤ) (buf : Buffer) (n : ℕ) → Fits (Outputs.write i buf n))
    × ((i : ℤ) (n n2 : ℕ) (i2 : ℤ) → Fits (Outputs.batch_request i n n2 i2))
    × ((i : ℤ) (n : ℕ) (ns : List ℕ) (b : Bool) → Fits (Outputs.offsets_request i n ns b))

pub file_methods-Fit : FileMethodsFit
file_methods-Fit = (
  (λ b buf i. unless-WhenOk Fits _ _ (with_buffer-WhenOk Fits buf.len buf _ (ground arith))),
  (λ s i i2 i3. (omega arith, tt)),
  (λ s s2 buf. with_buffer-WhenOk Fits _ buf _ (ground arith)),
  (λ s s2 buf i. (omega arith, tt)),
  (λ i s buf. with_buffer-WhenOk Fits _ buf _ (ground arith)),
  (λ i s buf i2. (omega arith, tt)),
  (λ i n n2. (omega arith, tt)),
  (λ i buf n. (omega arith, tt)),
  (λ i n n2 i2. (omega arith, tt)),
  offsets_request-Fits,
)
