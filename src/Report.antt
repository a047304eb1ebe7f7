-- ===== src/Report.antt =====
-- internal/report: the records of a run, and the tables that are computed from them.
pub mod Record
pub mod Aggregate
pub mod Tables
pub mod RunFile
