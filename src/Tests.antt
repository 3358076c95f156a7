-- ===== src/Tests.antt =====
-- The theorems at work on concrete systems.
mod Samples
mod Tasks
mod Locks
mod Rwlocks
mod Sharing
mod Channels
mod Io
mod Print
mod Net
mod Programs
mod Listing
