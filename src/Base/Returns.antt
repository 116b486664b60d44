-- ===== src/Base/Returns.antt =====
-- The int that a C function returns for success or failure: 0 or -1.
pub data Status : Type 0 where
  success failure : Status
