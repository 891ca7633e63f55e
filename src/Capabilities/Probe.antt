-- ===== src/Capabilities/Probe.antt =====
-- The cached probe of pyuring/capabilities.py. The state is `_cached_probe`; what a short-lived
-- `UringCtx` reports, or raises, is an argument.
use pyuring.Errno
use pyuring.Prelude.{
  ℕ, String, Bool, true, false, not, Option, none, some, List, ℤ, pos, negsuc, ltb, ◌==◌, get_elem?,
}
use pyuring.Errors.{Exception, Result, Action, ok, err, uring_error, make_error, index_error}

-- `IoUringProbeInfo`
pub record IoUringProbeInfo : Type 0 where
  pub last_op : ℕ
  pub opcode_mask : List ℕ

abbrev pub fresh_probe : Result IoUringProbeInfo → Action (Option IoUringProbeInfo) IoUringProbeInfo
fresh_probe (err e) cache = (err e, cache)
fresh_probe (ok info) cache = (ok info, some info)

-- `get_probe_info`
unfoldable pub get_probe_info :
    Result IoUringProbeInfo → Bool → Action (Option IoUringProbeInfo) IoUringProbeInfo
get_probe_info answer refresh none = fresh_probe answer none
get_probe_info answer true (some info) = fresh_probe answer (some info)
get_probe_info answer false (some info) = (ok info, some info)

-- The test on the probe: `opcode_mask[opcode] != 0`, where the opcode is in range.
unfoldable pub mask_bit : ℤ → IoUringProbeInfo → Result Bool
mask_bit (negsuc n) info = ok false
mask_bit (pos n) info = elim (ltb info.last_op n) [
  | true ↦ ok false
  | false ↦ elim (get_elem? info.opcode_mask n) [
    | none ↦ err index_error
    | some b ↦ ok (not (b == 0))
  ]
]

-- `opcode_supported`
unfoldable pub opcode_supported :
    Result IoUringProbeInfo → ℤ → Bool → Action (Option IoUringProbeInfo) Bool
unfolding get_probe_info
opcode_supported answer opcode refresh cache =
    let (r, cache') = get_probe_info answer refresh cache in
    elim r [ err e ↦ (err e, cache') | ok info ↦ (mask_bit opcode info, cache') ]

abbrev pub unsupported_error : String → Exception
unsupported_error operation = uring_error (
    make_error (pos Errno.eopnotsupp) operation (record {
      detail = some "io_uring opcode is not supported on this kernel.";
      filename = none;
      at_offset = none;
      of_length = none;
    }))

-- `require_opcode_supported`
unfoldable pub require_opcode_supported :
    Result IoUringProbeInfo → ℤ → String → Action (Option IoUringProbeInfo) (Unit {0})
require_opcode_supported answer opcode operation cache =
    let (r, cache') = opcode_supported answer opcode false cache in
    elim r [
      | err e ↦ (err e, cache')
      | ok b ↦ elim b [
        | true ↦ (ok tt, cache')
        | false ↦ (err (unsupported_error operation), cache')
      ]
    ]
