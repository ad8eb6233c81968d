-- ===== src/Mm.antt =====
-- The memory manager (xtoskrnl/mm).
pub mod HardwarePool
