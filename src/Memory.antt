-- ===== src/Memory.antt =====
-- Addictol/Source/Memory: the allocators of the plugin.
pub mod Visper
