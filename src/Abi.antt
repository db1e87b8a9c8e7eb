-- ===== src/Abi.antt =====
-- common.h: the constants and the records that the dataplane and the daemon share.
pub mod Reason
pub mod Bits
pub mod Bucket
pub mod Config
