-- ===== src/Config.antt =====
-- internal/config: the files of the program.
pub mod Writes
pub mod Fixture
pub mod Bundle
pub mod SshConfig
pub mod Store
pub mod Migrate
pub mod Tests
pub mod VaultFile
