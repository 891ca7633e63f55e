-- ===== src/Capabilities/Tests.antt =====
-- The cached probe at concrete arguments.
use pyuring.Prelude.{
  true, length, ◌∷◌, [], ◌≡◌, refl, false, none, some, pos, Option, Bool, if◌then◌else◌, suc,
}
use pyuring.Errors.{Result, ok, err, other}
use pyuring.Capabilities.Probe.{
  IoUringProbeInfo, get_probe_info, mask_bit, opcode_supported, require_opcode_supported,
  unsupported_error,
}
use pyuring.Sync.Request.{Library}
use text.Mathlib.Text.{◌==◌ as str_eq}
use pyuring.Ctx.State.{new_ctx, ring, ensure_open}
use pyuring.Abi.Convert.{low_bits}
use pyuring.Sync.Request.{perform, dispatch, tested}
use pyuring.Sync.Registration.{probe_supported_mask}
use pyuring.Errors.{raise_for_neg_errno}
use pyuring.Capabilities.Snapshot.{snapshot, probed_answers}

abbrev two_opcodes : IoUringProbeInfo
two_opcodes = record { last_op = 1; opcode_mask = 1 ∷ 0 ∷ [] }

abbrev empty_cache : Option IoUringProbeInfo
empty_cache = none

probed_once : get_probe_info (ok two_opcodes) false empty_cache ≡ (ok two_opcodes, some two_opcodes)
unfolding get_probe_info
probed_once = refl

second_missing : mask_bit (pos 1) two_opcodes ≡ ok false
unfolding mask_bit
second_missing = refl

-- A kernel whose last opcode is 1.
abbrev small_kernel : Library
small_kernel name args =
    if str_eq name "uring_probe_last_op"
    then record { ret = pos 1; words = [] }
    else record { ret = pos 0; words = pos 1 ∷ pos 1 ∷ [] }

abbrev small_info : IoUringProbeInfo
small_info = record { last_op = 1; opcode_mask = 1 ∷ 1 ∷ [] }

small_snapshot : snapshot small_kernel 3 (new_ctx 7 (some 3)) ≡ (ok small_info, new_ctx 7 (some 3))
unfolding snapshot perform ring ensure_open dispatch tested raise_for_neg_errno probe_supported_mask
    low_bits
small_snapshot = refl

probed_answers_example :
    let after = (get_probe_info (ok small_info) false none).1 in
    (length small_info.opcode_mask ≡ suc small_info.last_op)
    × (b : Bool) × (mask_bit (pos 7) small_info ≡ ok b)
    × (opcode_supported (err other) (pos 7) false after ≡ (ok b, some small_info))
    × (require_opcode_supported (err other) (pos 7) "splice" after ≡ (
      elim b as (λ x. Result (Unit {0})) [
        | true ↦ ok tt
        | false ↦ err (unsupported_error "splice")
      ],
      some small_info,
    ))
probed_answers_example =
    probed_answers small_kernel 3 (new_ctx 7 (some 3)) (new_ctx 7 (some 3)) small_info (err other)
      (pos 7) "splice" small_snapshot
