-- ===== src/Ke.antt =====
-- The kernel proper (xtoskrnl/ke).
pub mod SpinLock
pub mod SystemResources
