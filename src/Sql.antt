-- ===== src/Sql.antt =====
-- vulndb/sqlutil: the builders of SQL statements.
pub mod Marks
pub mod Builder
pub mod Totals
pub mod Built
pub mod Balance
pub mod Records
