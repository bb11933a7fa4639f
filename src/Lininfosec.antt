-- ===== src/Lininfosec.antt =====
-- cmd/lininfosec: the service that monitors configurations of software.
pub mod Store
pub mod Monitor
pub mod Notify
pub mod Once
pub mod Pipeline
pub mod Progress
pub mod Rows
pub mod Table
pub mod Effects
pub mod Refines
pub mod Permits
