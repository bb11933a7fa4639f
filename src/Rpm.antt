-- ===== src/Rpm.antt =====
-- rpm: package labels and the order of versions.
pub mod Compare
pub mod Key
mod Rounds
pub mod Order
pub mod Parse
pub mod RoundTrip
pub mod Checker
