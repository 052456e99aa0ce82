-- ===== src/Memory.antt =====
-- src/modified/sys/memory.c: the physical page allocator and the Sv39 page tables.
pub mod Pages
pub mod Table
