-- ===== src/Sync/VectorCalls.antt =====
-- The methods that take a list, through ctypes.
use pyuring.Sync.Vectors
use pyuring.Sync.Registration
use pyuring.Prelude.{refl, ℕ, ◌∷◌, List, ℤ}
use pyuring.Sync.Accepted.{
  always-WhenOk, request_of-WhenOk, taken-Reaches, WhenOk, Reaches, with_parts-WhenOk,
}
use pyuring.Sync.Request.{Buffer}
use mathlib.Core.List.{[]}
use pyuring.Sync.Vectors.{each_part}
use pyuring.Sync.Registration.{register_part}

register_files-Reaches : (fds : List ℤ) → WhenOk Reaches (Registration.register_files fds)
register_files-Reaches [] = tt
register_files-Reaches (fd ∷ fds) = taken-Reaches _ refl

files_update-Reaches : (fds : List ℤ) (i : ℤ) → WhenOk Reaches (Registration.files_update fds i)
files_update-Reaches [] i = tt
files_update-Reaches (fd ∷ fds) i = taken-Reaches _ refl

buffers_request-Reaches : (ps : List Buffer) → WhenOk Reaches (Registration.buffers_request ps)
buffers_request-Reaches [] = tt
buffers_request-Reaches (p ∷ ps) =
    request_of-WhenOk Reaches (each_part register_part (p ∷ ps)) _
      (always-WhenOk _ _ (λ ns. taken-Reaches _ refl))

-- The requests of the methods that take a list of buffers or descriptors, and of the probes.
abbrev pub VectorMethodsReach : Type 0
VectorMethodsReach =
    ((i : ℤ) (ps : List Buffer) (i2 : ℤ) → WhenOk Reaches (Vectors.readv i ps i2))
    × ((i : ℤ) (ps : List Buffer) (i2 : ℤ) → WhenOk Reaches (Vectors.writev i ps i2))
    × ((i : ℤ) (ps : List Buffer) (i2 : ℤ) → WhenOk Reaches (Vectors.sendmsg_iov i ps i2))
    × ((i : ℤ) (ps : List Buffer) (i2 : ℤ) → WhenOk Reaches (Vectors.recvmsg_iov i ps i2))
    × ((i : ℤ) (ps : List Buffer) (i2 : ℤ) → WhenOk Reaches (Vectors.sendmsg_zc_iov i ps i2))
    × ((i : ℤ) (ps : List Buffer) (i2 i3 : ℤ)
        → WhenOk Reaches (Vectors.sendmsg_zc_fixed_iov i ps i2 i3))
    × ((i : ℤ) (ps : List Buffer) (i2 : ℤ) → WhenOk Reaches (Vectors.recvmsg_multishot_iov i ps i2))
    × ((i : ℤ) (ps : List Buffer) (i2 i3 i4 : ℤ)
        → WhenOk Reaches (Vectors.readv_fixed i ps i2 i3 i4))
    × ((i : ℤ) (ps : List Buffer) (i2 i3 i4 : ℤ)
        → WhenOk Reaches (Vectors.writev_fixed i ps i2 i3 i4))
    × ((fds : List ℤ) → WhenOk Reaches (Registration.register_files fds))
    × (Reaches Registration.unregister_files)
    × ((fds : List ℤ) (i : ℤ) → WhenOk Reaches (Registration.files_update fds i))
    × ((ps : List Buffer) → WhenOk Reaches (Registration.buffers_request ps))
    × (Reaches Registration.last_op_request)
    × ((n : ℕ) → Reaches (Registration.mask_request n))

pub vector_methods-Reach : VectorMethodsReach
vector_methods-Reach = (
  (λ i ps i2. with_parts-WhenOk Reaches _ _ _ (λ _ _. taken-Reaches _ refl)),
  (λ i ps i2. with_parts-WhenOk Reaches _ _ _ (λ _ _. taken-Reaches _ refl)),
  (λ i ps i2. with_parts-WhenOk Reaches _ _ _ (λ _ _. taken-Reaches _ refl)),
  (λ i ps i2. with_parts-WhenOk Reaches _ _ _ (λ _ _. taken-Reaches _ refl)),
  (λ i ps i2. with_parts-WhenOk Reaches _ _ _ (λ _ _. taken-Reaches _ refl)),
  (λ i ps i2 i3. with_parts-WhenOk Reaches _ _ _ (λ _ _. taken-Reaches _ refl)),
  (λ i ps i2. with_parts-WhenOk Reaches _ _ _ (λ _ _. taken-Reaches _ refl)),
  (λ i ps i2 i3 i4. with_parts-WhenOk Reaches _ _ _ (λ _ _. taken-Reaches _ refl)),
  (λ i ps i2 i3 i4. with_parts-WhenOk Reaches _ _ _ (λ _ _. taken-Reaches _ refl)),
  register_files-Reaches,
  (taken-Reaches _ refl),
  files_update-Reaches,
  buffers_request-Reaches,
  (taken-Reaches _ refl),
  (λ n. taken-Reaches _ refl),
)
