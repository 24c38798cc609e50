-- ===== src/Release.antt =====
-- The release scripts: scripts/.
pub mod Ledger
