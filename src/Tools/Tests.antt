-- ===== src/Tools/Tests.antt =====
-- A run of `mkdata` at concrete inputs.
