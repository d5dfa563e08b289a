-- ===== src/Pool.antt =====
-- The allocator of ConcurrentMemoryPool/ConcurrentMemoryPool: size classes, and the cache of pages.
pub mod SizeClass
pub mod PageCache
pub mod Tests
