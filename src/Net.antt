-- ===== src/Net.antt =====
-- net/: connections, their receive and send paths, the timer queue and the server's event handlers.
pub mod Flood
pub mod Recv
pub mod Timer
pub mod Address
pub mod Pool
pub mod Server
