-- ===== src/Caching.antt =====
-- The caching daemon of caching/src: its tables, its protocol for files and fragments, and the
-- exchange by which neighbours agree on who keeps a copy.
pub mod Types
pub mod State
pub mod Socket
pub mod Table
pub mod ReqList
pub mod Task
pub mod Timer
pub mod Flood
pub mod Exchange
pub mod FragReq
pub mod FileRep
pub mod FileReq
pub mod PacketIn
pub mod Thread
