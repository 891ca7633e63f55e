-- ===== src/Errors/Tests.antt =====
-- Errors at concrete results.
use pyuring.Prelude.{ℕ}

abbrev no_state : ℕ
no_state = 0
