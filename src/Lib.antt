-- ===== src/Lib.antt =====
-- FuFirE, the part that computes Zi Wei Dou Shu charts, BaZi pillars and the analysis of a pair of
-- them, with the access to it, modelled by definitions translated from the Python source, with theorems
-- on them. Paths are from the repository's root.
--
-- How the program is put together. A local civil time in a named zone is resolved to one instant, by a
-- fold or by a shift out of a gap (bazi_engine/time_utils.py). A chart of bazi_engine/zwds starts from
-- that time: the seed (lunar month and day, year stem and branch, hour branch) gives the ring of twelve
-- palaces, the Ming palace's stem and branch give the bureau, the lunar day and the bureau give the
-- stars, the year stem gives the transformations, and the bureau and a flow direction give the decadal
-- limits; the assembled chart is validated before it is returned. The BaZi pillars (bazi_engine/bazi.py)
-- and the luck cycles (bazi_engine/dayun) count on the same cycles of ten stems and twelve branches.
--
-- Who may ask for a chart is decided first: bazi_engine/config_guard.py refuses a start without the
-- settings of a production profile, bazi_engine/auth.py lets a request through by a key of the
-- environment's list or of the store (bazi_engine/key_store.py), which the admin endpoint fills, and
-- bazi_engine/limiter.py gives each key the limit of its tier.
--
-- The match endpoint (bazi_engine/routers/match.py) takes two persons: after the consent gate it computes
-- the pillars of each, normalizes them to a chart with a ledger of element weights, analyses each person
-- and then the pair in three layers, and renders the layers and the warnings as text blocks; each block
-- refers by id to entries of the evidence ledger. Every string passes a guard on blocked language. The
-- computation of the pillars, floating-point weights and their formatting, and the search of the guard's
-- patterns are parameters.
--
-- Which file models what:
--   Zwds/Domain: bazi_engine/zwds/domain.py, the stem, branch and animal enums and the residues
--     mod 12 and 10.
--   Zwds/Calendar: bazi_engine/zwds/calendar_provider.py, the result of a conversion and the
--     contract of a provider.
--   Zwds/Seed: bazi_engine/zwds/seed.py, `resolve_calendar_seed` and the arithmetic that it
--     uses.
--   Zwds/Chronometry: bazi_engine/zwds/seed.py, `resolve_chronometry`; the solar offsets,
--     computed in floating point, are parameters.
--   Zwds/Bureau: bazi_engine/zwds/bureau.py, `five_elements_bureau` and its pair table.
--   Zwds/Palace: bazi_engine/zwds/palace.py, `build_palaces` with its anchors and stems.
--   Zwds/Stars: bazi_engine/zwds/stars/, the major stars (major.py) and the auxiliary ones
--     (auxiliary.py).
--   Zwds/Relations: bazi_engine/zwds/relations.py, the relations of a palace.
--   Zwds/Transformations: bazi_engine/zwds/transformations.py, with the table it loads.
--   Zwds/Decadal: bazi_engine/zwds/decadal.py, the decadal limits.
--   Zwds/Chart, Zwds/Engine: bazi_engine/zwds/engine.py, the chart as records and the steps 3 to
--     12 of `compute_zwds_raw` (`assemble_chart`).
--   Zwds/Validation: bazi_engine/zwds/validation.py, `validate_chart_graph` and its five checks.
--   Dayun/Direction: bazi_engine/dayun/direction.py, the flow direction.
--   Dayun/Relation, Dayun/Jiazi, Dayun/Interpretation: relation.py, jiazi.py and
--     interpretation.py of bazi_engine/dayun: the Ten Gods, the cycle of sixty, clashes and
--     combinations.
--   Bazi/Pillars: bazi_engine/bazi.py, the pillar arithmetic, with the stem tables of
--     bazi_engine/resources/rulesets/standard_bazi_2026.json.
--   Clock/Local: bazi_engine/time_utils.py, `resolve_local_iso`: a zone and the parsers of
--     texts, with the errors they raise, are parameters.
--   Access/KeyStore, Access/Auth: bazi_engine/key_store.py and auth.py: the store of keys as a
--     state that is passed on, tiers, and `require_api_key`.
--   Access/Limits, Access/Features, Access/Profile: limiter.py, features.py and config_guard.py
--     of bazi_engine; Profile/Deployment has what the start of a production profile promises.
--   Access/Admin: bazi_engine/routers/admin.py, `issue_key`, and its mount in registry.py.
--   Access/Environ, Prelude/Text: the process environment and the methods of Python texts that
--     these use.
--   Match/Values, Match/Ruleset, Match/TenGods: the data of bazi_engine/match/types.py, what
--     bafe/ruleset_loader.py reads of the shipped ruleset, and match/ten_gods.py.
--   Match/Normalize, Match/Individual, Match/Pair: normalize.py, individual.py and pair.py of
--     bazi_engine/match: the chart, the analysis of each person and of the pair.
--   Match/Guard, Match/Statements, Match/Text: bazi_engine/match/textblocks.py: the guard on
--     blocked language, the statements of a layer, the text blocks.
--   Match/Evidence: bazi_engine/match/evidence.py, `build_evidence_ledger`.
--   Match/Service: bazi_engine/routers/match.py, the core of `match_bazi_hehun_endpoint`.
--   Match/Returns, Match/Outcomes: results that return, or return unless a text is blocked, for
--     the proofs.
--   Tests: the theorems at concrete inputs.
--
-- Numbers. Python's integers are ℤ of Prelude/Int where the code may meet a negative one (`//` and `%`
-- round to minus infinity: `floor_div`, `floor_mod`) and ℕ where they are indices or counts. An
-- exception is a value of Prelude/Results' `Error`, by class; messages are left out, what `detail`
-- names is kept where the code builds it. A dict is a list of pairs in insertion order (Prelude/Dict).
-- Loops over a finite sequence are recursion on the sequence or on the rounds left (2880 in the search
-- through a gap, 12 in the decadal limits), so none needs fuel. A datetime is a number of microseconds
-- on its own clock.
--
-- The environment of the process is a function that does not change, so what the code caches from it is
-- read again; random texts are arguments of what draws them, and the store of keys is passed on.
--
-- Not modelled: the HTTP layer (the other routers, app, middleware), canonical JSON, the
-- consent log and the caller statistics of bazi_engine/match, ephemeris access (Swiss Ephemeris is a
-- C library), the Western, fusion and astronomy layers, narrative texts, JSON schemas and logging.
pub mod Prelude
pub mod Dayun
pub mod Access
pub mod Clock
pub mod Match
pub mod Bazi
pub mod Zwds
pub mod Tests
