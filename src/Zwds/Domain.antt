-- ===== src/Zwds/Domain.antt =====
-- bazi_engine/zwds/domain.py: the three coordinate enums and the modulo helpers. An enum member's
-- integer value is `...value`, its `.name` is `...name`, and the constructors `StemId(i)`,
-- `BranchId(i)`, `AnimalId(i)`, `BranchId[name]` are `of_value` and `of_name`, which raise outside
-- the members.
pub mod Modulo
pub mod Stem
pub mod Branch
pub mod Animal
