-- ===== src/Rtl.antt =====
-- The run-time library, xtoskrnl/rtl.
pub mod LinkedList
pub mod Bitmap
pub mod Math
pub mod Time
pub mod Sha1
pub mod Memory
