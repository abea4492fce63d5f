-- ===== src/Clock.antt =====
-- bazi_engine/time_utils.py: local civil times and the instants that they name.
pub mod Local
