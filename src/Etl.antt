-- ===== src/Etl.antt =====
-- The parts of etl/: the records and their quality rules.
pub mod Records
pub mod Quality
pub mod Pipeline
