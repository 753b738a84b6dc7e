-- ===== src/Client.antt =====
-- pfs.cc: the client's library functions, with what they need of ClientCache.cc beside the cache itself:
-- the traffic with the file servers and the flush.
pub mod Tokens
pub mod Calls
pub mod Acquire
pub mod Blocks
pub mod Io
pub mod Flush
pub mod Revoker
