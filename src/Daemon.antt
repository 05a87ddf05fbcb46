-- ===== src/Daemon.antt =====
-- internal/daemon: the state of downloaded jobs and the buffer of log entries.
pub mod State
pub mod LogBuffer
mod Tests
