-- ===== src/Ui/Sftp.antt =====
-- internal/ui/sftp.go and the messages of it in app.go: the split view.
pub mod Pane
pub mod State
pub mod Handlers
pub mod Keys
pub mod Pointer
pub mod Results
pub mod Commands
pub mod Update
pub mod World
pub mod Tests
