-- ===== src/Capabilities.antt =====
-- pyuring/capabilities.py.
pub mod Probe
pub mod Cache
pub mod Snapshot
pub mod Tests
