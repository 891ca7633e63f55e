-- ===== src/Capabilities/Cache.antt =====
-- What the cache of pyuring/capabilities.py promises.
use pyuring.Prelude.{String, Bool, true, false, some, Option, ◌≡◌, refl, ℤ, arith}
use pyuring.Errors.{Result, ok, err}
use pyuring.Capabilities.Probe.{
  IoUringProbeInfo, get_probe_info, mask_bit, opcode_supported, require_opcode_supported,
  unsupported_error,
}

-- Once a probe succeeded, every later call without `refresh` answers from it, whatever a new probe
-- would report or raise, and leaves the cache as it is: `opcode_supported` by the mask, and
-- `require_opcode_supported` returns exactly when that is `True` and raises `EOPNOTSUPP` when it is
-- `False`.
pub cached_answers :
    (first later : Result IoUringProbeInfo) (info : IoUringProbeInfo) (refresh b : Bool)
    (cache : Option IoUringProbeInfo) (opcode : ℤ) (operation : String)
    → get_probe_info first refresh cache ≡ (ok info, some info)
    → mask_bit opcode info ≡ ok b
    → let after = (get_probe_info first refresh cache).1 in
      (get_probe_info later false after ≡ (ok info, some info))
      × (opcode_supported later opcode false after ≡ (ok b, some info))
      × (require_opcode_supported later opcode operation after ≡ (
        elim b as (λ x. Result (Unit {0})) [
          | true ↦ ok tt
          | false ↦ err (unsupported_error operation)
        ],
        some info,
      ))
unfolding opcode_supported require_opcode_supported
cached_answers first later info refresh true cache opcode operation h m =
    (rw h kept, rw h (ground (arith, kept)), rw h (ground (arith, kept)))
  where
    kept : get_probe_info later false (some info) ≡ (ok info, some info)
    kept = unfold get_probe_info in refl
cached_answers first later info refresh false cache opcode operation h m =
    (rw h kept, rw h (ground (arith, kept)), rw h (ground (arith, kept)))
  where
    kept : get_probe_info later false (some info) ≡ (ok info, some info)
    kept = unfold get_probe_info in refl
