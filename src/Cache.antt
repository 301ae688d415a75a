-- ===== src/Cache.antt =====
-- The buffer cache: the class BufferManager of UNIXV6PP/BufferManager.cc with its two kinds of
-- queues, as the links between buffers. It is the code behind the calls of the interface BufferIo.
pub mod Pool
pub mod Ring
pub mod Queue
pub mod GetBlk
pub mod Transfer
pub mod Io
