-- ===== src/Zwds.antt =====
-- bazi_engine/zwds: the Zi Wei Dou Shu chart engine, one module for each file of the package.
pub mod Domain
pub mod Bureau
pub mod Palace
pub mod Stars
pub mod Relations
pub mod Transformations
pub mod Decadal
pub mod Calendar
pub mod Seed
pub mod Chronometry
pub mod Chart
pub mod Validation
pub mod Engine
