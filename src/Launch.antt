-- ===== src/Launch.antt =====
-- The launch of an instance in pkg/cloudprovider/cloudprovider.go.
pub mod Requirements
pub mod Tags
pub mod Options
pub mod Fallback
pub mod Tagged
