-- ===== src/Xtldr.antt =====
-- The boot loader, boot/xtldr.
pub mod Memory
