-- ===== src/Columns.antt =====
-- cmd/cpe2cve and cmd/csv2cpe: which columns of a record are dropped, and where columns are put in.
pub mod Skip
pub mod Compact
pub mod Place
