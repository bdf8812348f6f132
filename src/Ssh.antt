-- ===== src/Ssh.antt =====
-- internal/ssh: dialling, host keys, sessions and the errors they report.
pub mod Errors
pub mod HostKey
pub mod Session
pub mod Tests
