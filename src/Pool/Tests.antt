-- ===== src/Pool/Tests.antt =====
-- Tests of the allocator of ConcurrentMemoryPool/ConcurrentMemoryPool.
mod Sizes
mod Pages
mod Merges
