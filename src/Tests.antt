-- ===== src/Tests.antt =====
-- The theorems at concrete inputs: a small disk, a lock table and a pool.
mod Alloc
mod Commit
mod Crash
mod Disk
mod Locks
mod Pool
mod Memory
mod Merging
mod Pages
mod Walks
mod Prune
