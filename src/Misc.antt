-- ===== src/Misc.antt =====
-- misc/: the CRC-32 checksum, the allocator and the pool of message threads.
pub mod Crc
pub mod Threads
pub mod TaskPool
