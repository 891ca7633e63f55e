-- ===== src/Sync/EverySpan.antt =====
-- What C reads and writes for all synchronous methods.
use pyuring.Sync.Sockets
use Prim.Native.Nat.{ℕ, suc}
use pyuring.Prelude.{arith, ℕ, ℤ, pos, some, suc, ◌<◌}
use pyuring.Sync.Request.{Buffer}
use pyuring.Sync.Spans.{Fits}

-- `cmd_sock` passes `optlen` as it comes: whenever it is larger than the value, C reads behind it.
cmd_sock_overruns :
    (cmd_op fd level optname : ℤ) (optval : Buffer) (n : ℕ)
    → optval.len < suc n
    → ¬ Fits (Sockets.cmd_sock cmd_op fd level optname (some optval) (pos (suc n)))
cmd_sock_overruns cmd_op fd level optname optval n h f = ground arith
