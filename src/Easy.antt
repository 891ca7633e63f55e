-- ===== src/Easy.antt =====
-- pyuring/_easy.py: the entry points `copy`, `write` and `write_many` over pyuring/native/c_api.py.
-- Tuning: the presets and policies. Entry: the entry points. Presets, Routes: what holds of them.
pub mod Tuning
pub mod Entry
pub mod Presets
pub mod Routes
