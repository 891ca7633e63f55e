-- ===== src/Sync/VectorSpans.antt =====
-- What C reads and writes for the methods that take a list.
use pyuring.Sync.Vectors
use pyuring.Sync.Registration
use pyuring.Prelude.{inr, inl, arith, ℕ, ◌∷◌, List, ℤ}
use pyuring.Sync.Lengths.{gather-WhenOk, length-map_≤, buffers_request_lem, scatter-WhenOk}
use pyuring.Sync.Spans.{Fits}
use pyuring.Sync.Request.{Buffer}
use pyuring.Sync.Accepted.{WhenOk}
use mathlib.Core.List.{[]}

register_files-Fits : (fds : List ℤ) → WhenOk Fits (Registration.register_files fds)
register_files-Fits [] = tt
register_files-Fits (fd ∷ fds) = (omega arith, tt)

files_update-Fits : (fds : List ℤ) (i : ℤ) → WhenOk Fits (Registration.files_update fds i)
files_update-Fits [] i = tt
files_update-Fits (fd ∷ fds) i = (omega arith, tt)

buffers_request-Fits : (ps : List Buffer) → WhenOk Fits (Registration.buffers_request ps)
buffers_request-Fits ps = elim (buffers_request_lem ps) [
  | inl a ↦ rw a.1 (length-map_≤ _ ps, tt)
  | inr a ↦ rw a.1 tt
]

-- The requests of the methods that take a list of buffers or descriptors, and of the probe.
abbrev pub VectorMethodsFit : Type 0
VectorMethodsFit =
    ((i : ℤ) (ps : List Buffer) (i2 : ℤ) → WhenOk Fits (Vectors.readv i ps i2))
    × ((i : ℤ) (ps : List Buffer) (i2 : ℤ) → WhenOk Fits (Vectors.writev i ps i2))
    × ((i : ℤ) (ps : List Buffer) (i2 : ℤ) → WhenOk Fits (Vectors.sendmsg_iov i ps i2))
    × ((i : ℤ) (ps : List Buffer) (i2 : ℤ) → WhenOk Fits (Vectors.recvmsg_iov i ps i2))
    × ((i : ℤ) (ps : List Buffer) (i2 : ℤ) → WhenOk Fits (Vectors.sendmsg_zc_iov i ps i2))
    × ((i : ℤ) (ps : List Buffer) (i2 i3 : ℤ)
        → WhenOk Fits (Vectors.sendmsg_zc_fixed_iov i ps i2 i3))
    × ((i : ℤ) (ps : List Buffer) (i2 : ℤ) → WhenOk Fits (Vectors.recvmsg_multishot_iov i ps i2))
    × ((i : ℤ) (ps : List Buffer) (i2 i3 i4 : ℤ) → WhenOk Fits (Vectors.readv_fixed i ps i2 i3 i4))
    × ((i : ℤ) (ps : List Buffer) (i2 i3 i4 : ℤ) → WhenOk Fits (Vectors.writev_fixed i ps i2 i3 i4))
    × ((fds : List ℤ) → WhenOk Fits (Registration.register_files fds))
    × ((fds : List ℤ) (i : ℤ) → WhenOk Fits (Registration.files_update fds i))
    × ((ps : List Buffer) → WhenOk Fits (Registration.buffers_request ps))
    × ((n : ℕ) → Fits (Registration.mask_request n))

pub vector_methods-Fit : VectorMethodsFit
vector_methods-Fit = (
  (λ i ps i2.
      scatter-WhenOk Fits ps _ (ground (arith, length-map_≤ {A = Buffer} (λ b. b.nbytes) ps))),
  (λ i ps i2. gather-WhenOk Fits ps _ (ground (arith, length-map_≤ {A = Buffer} (λ b. b.len) ps))),
  (λ i ps i2. gather-WhenOk Fits ps _ (ground (arith, length-map_≤ {A = Buffer} (λ b. b.len) ps))),
  (λ i ps i2.
      scatter-WhenOk Fits ps _ (ground (arith, length-map_≤ {A = Buffer} (λ b. b.nbytes) ps))),
  (λ i ps i2. gather-WhenOk Fits ps _ (ground (arith, length-map_≤ {A = Buffer} (λ b. b.len) ps))),
  (λ i ps i2 i3.
      gather-WhenOk Fits ps _ (ground (arith, length-map_≤ {A = Buffer} (λ b. b.len) ps))),
  (λ i ps i2.
      scatter-WhenOk Fits ps _ (ground (arith, length-map_≤ {A = Buffer} (λ b. b.nbytes) ps))),
  (λ i ps i2 i3 i4.
      scatter-WhenOk Fits ps _ (ground (arith, length-map_≤ {A = Buffer} (λ b. b.nbytes) ps))),
  (λ i ps i2 i3 i4.
      gather-WhenOk Fits ps _ (ground (arith, length-map_≤ {A = Buffer} (λ b. b.len) ps))),
  register_files-Fits,
  files_update-Fits,
  buffers_request-Fits,
  (λ n. (omega arith, tt)),
)
