-- ===== src/Ex.antt =====
-- The executive (xtoskrnl/ex).
pub mod Rundown
