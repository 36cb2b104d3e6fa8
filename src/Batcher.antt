-- ===== src/Batcher.antt =====
-- The packages under pkg/batcher.
pub mod Window
