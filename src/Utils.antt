-- ===== src/Utils.antt =====
-- utils: what the programs share.
pub mod Expected
pub mod Logs
