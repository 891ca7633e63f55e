-- ===== src/Sync/FileCalls.antt =====
-- The methods on files and paths through ctypes.
use pyuring.Sync.Files
use pyuring.Sync.Outputs
use pyuring.Prelude.{refl, List, ℕ, Bool, ℤ, String}
use pyuring.Sync.Accepted.{unless-WhenOk, WhenOk, with_buffer-WhenOk, Reaches, taken-Reaches}
use Prim.Native.String.{String}
use pyuring.Sync.Request.{Buffer}
use mathlib.Core.Bool.{false, true}

madvise-Reaches : (b : Bool) (buf : Buffer) (i : ℤ) → WhenOk Reaches (Files.madvise b buf i)
madvise-Reaches b buf i =
    unless-WhenOk Reaches _ _ (with_buffer-WhenOk Reaches buf.len buf _ (taken-Reaches _ refl))

offsets_request-Reaches :
    (i : ℤ) (n : ℕ) (ns : List ℕ) (b : Bool) → Reaches (Outputs.offsets_request i n ns b)
offsets_request-Reaches i n ns true = taken-Reaches _ refl
offsets_request-Reaches i n ns false = taken-Reaches _ refl

-- The requests of the methods on files and paths, of `read`, `write`, `read_batch` and `read_offsets`.
abbrev pub FileMethodsReach : Type 0
FileMethodsReach =
    ((s : String) (i i2 i3 : ℤ) → Reaches (Files.openat s i i2 i3))
    × ((i : ℤ) → Reaches (Files.close_fd i))
    × ((i : ℤ) (b : Bool) → Reaches (Files.fsync_fd i b))
    × ((i i2 i3 i4 : ℤ) → Reaches (Files.fallocate_fd i i2 i3 i4))
    × ((s : String) (i i2 i3 : ℤ) → Reaches (Files.statx s i i2 i3))
    × ((s s2 : String) (i i2 i3 : ℤ) → Reaches (Files.renameat s s2 i i2 i3))
    × ((s : String) (i i2 : ℤ) → Reaches (Files.unlinkat s i i2))
    × ((s : String) (i i2 : ℤ) → Reaches (Files.mkdirat s i i2))
    × ((s s2 : String) (i : ℤ) → Reaches (Files.symlinkat s s2 i))
    × ((s s2 : String) (i i2 i3 : ℤ) → Reaches (Files.linkat s s2 i i2 i3))
    × ((i i2 i3 i4 : ℤ) → Reaches (Files.sync_file_range i i2 i3 i4))
    × ((i i2 i3 i4 : ℤ) → Reaches (Files.fadvise i i2 i3 i4))
    × ((b : Bool) (buf : Buffer) (i : ℤ) → WhenOk Reaches (Files.madvise b buf i))
    × ((s : String) (i : ℤ) → Reaches (Files.openat2 s i))
    × ((s s2 : String) (buf : Buffer) → WhenOk Reaches (Files.getxattr s s2 buf))
    × ((s s2 : String) (buf : Buffer) (i : ℤ) → Reaches (Files.setxattr s s2 buf i))
    × ((i : ℤ) (s : String) (buf : Buffer) → WhenOk Reaches (Files.fgetxattr i s buf))
    × ((i : ℤ) (s : String) (buf : Buffer) (i2 : ℤ) → Reaches (Files.fsetxattr i s buf i2))
    × ((i i2 : ℤ) → Reaches (Files.ftruncate i i2))
    × (Reaches Outputs.ring_fd)
    × ((i : ℤ) (n n2 : ℕ) → Reaches (Outputs.read_request i n n2))
    × ((i : ℤ) (buf : Buffer) (n : ℕ) → Reaches (Outputs.write i buf n))
    × ((i : ℤ) (n n2 : ℕ) (i2 : ℤ) → Reaches (Outputs.batch_request i n n2 i2))
    × ((i : ℤ) (n : ℕ) (ns : List ℕ) (b : Bool) → Reaches (Outputs.offsets_request i n ns b))

pub file_methods-Reach : FileMethodsReach
file_methods-Reach = (
  (λ s i i2 i3. taken-Reaches _ refl),
  (λ i. taken-Reaches _ refl),
  (λ i b. taken-Reaches _ refl),
  (λ i i2 i3 i4. taken-Reaches _ refl),
  (λ s i i2 i3. taken-Reaches _ refl),
  (λ s s2 i i2 i3. taken-Reaches _ refl),
  (λ s i i2. taken-Reaches _ refl),
  (λ s i i2. taken-Reaches _ refl),
  (λ s s2 i. taken-Reaches _ refl),
  (λ s s2 i i2 i3. taken-Reaches _ refl),
  (λ i i2 i3 i4. taken-Reaches _ refl),
  (λ i i2 i3 i4. taken-Reaches _ refl),
  madvise-Reaches,
  (λ s i. taken-Reaches _ refl),
  (λ s s2 buf. with_buffer-WhenOk Reaches _ buf _ (taken-Reaches _ refl)),
  (λ s s2 buf i. taken-Reaches _ refl),
  (λ i s buf. with_buffer-WhenOk Reaches _ buf _ (taken-Reaches _ refl)),
  (λ i s buf i2. taken-Reaches _ refl),
  (λ i i2. taken-Reaches _ refl),
  (taken-Reaches _ refl),
  (λ i n n2. taken-Reaches _ refl),
  (λ i buf n. taken-Reaches _ refl),
  (λ i n n2 i2. taken-Reaches _ refl),
  offsets_request-Reaches,
)
