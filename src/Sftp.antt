-- ===== src/Sftp.antt =====
-- internal/sftp: file copies and recursive transfers.
pub mod Transfer
pub mod Tree
pub mod RunSet
pub mod Remove
pub mod Tests
