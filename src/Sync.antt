-- ===== src/Sync.antt =====
-- internal/sync: the GitHub client.
pub mod Github
