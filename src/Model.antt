-- ===== src/Model.antt =====
-- internal/model: the data that the other components share.
pub mod Server
pub mod Entries
