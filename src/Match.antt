-- ===== src/Match.antt =====
-- bazi_engine/match: the analysis of a pair of BaZi charts, from the pillars to the evidence ledger. A
-- weight is a floating-point number: its type is a parameter, with the constants and the sum that the
-- code uses.
pub mod Values
pub mod Ruleset
pub mod TenGods
pub mod Normalize
pub mod Individual
pub mod Pair
pub mod Guard
pub mod Outcomes
pub mod Returns
pub mod Statements
pub mod Text
pub mod Evidence
pub mod Service
