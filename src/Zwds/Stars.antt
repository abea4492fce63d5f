-- ===== src/Zwds/Stars.antt =====
-- bazi_engine/zwds/stars: the star placements over the resolved seed. `StarBranch` stands here as
-- in the package's `__init__.py`; a child for each of its modules, and one for their laws.
pub mod Placed
pub mod Major
pub mod Auxiliary
