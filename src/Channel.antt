-- ===== src/Channel.antt =====
-- channel.c: buffered channels between tasks.
pub mod Types
pub mod Arrays
pub mod Waiters
pub mod Dequeue
pub mod Copy
pub mod Ring
pub mod Exchange
pub mod Group
pub mod Buffered
pub mod Nonblocking
pub mod Meet
pub mod Serve
pub mod Words
pub mod Select
pub mod Api
