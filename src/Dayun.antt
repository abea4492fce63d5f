-- ===== src/Dayun.antt =====
-- bazi_engine/dayun: the Da-Yun (luck pillar) helpers, one module for each file of the package.
pub mod Direction
pub mod Relation
pub mod Jiazi
pub mod Interpretation
