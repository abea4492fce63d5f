-- ===== src/Tests.antt =====
-- The theorems at concrete inputs, and runs of the definitions.
mod Access
mod Zwds
mod Dayun
mod Engine
mod Match
mod Clock
mod Bazi
