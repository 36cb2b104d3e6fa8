-- ===== src/Utils.antt =====
-- The packages under pkg/utils.
pub mod SecurityGroups
pub mod Capacity
pub mod Tags
