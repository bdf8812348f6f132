-- ===== src/Ui.antt =====
-- internal/ui: the root model, its session tabs and what they draw on.
pub mod Terminal
pub mod Backoff
pub mod Keymap
pub mod State
pub mod Tabs
pub mod Update
pub mod Sftp
pub mod Sidebar
pub mod Sync
pub mod Tests
