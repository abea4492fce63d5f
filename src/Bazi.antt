-- ===== src/Bazi.antt =====
-- The BaZi pillars: bazi_engine/bazi.py and the tables that it reads.
pub mod Pillars
