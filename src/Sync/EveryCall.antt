-- ===== src/Sync/EveryCall.antt =====
-- All synchronous methods through ctypes.
