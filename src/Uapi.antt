-- ===== src/Uapi.antt =====
-- The constants of pyuring/native/constants.py, and pyuring/ring_presets.py.
pub mod Flags
pub mod Others
pub mod Names
pub mod Presets
