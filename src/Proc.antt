-- ===== src/Proc.antt =====
-- signal/, proc/ and app/: the processes of the server, from main() to the workers.
pub mod Signals
pub mod Daemon
pub mod Cycle
pub mod Main
