-- ===== src/Cvss2.antt =====
-- cvss2: the vectors of the Common Vulnerability Scoring System, version 2.
pub mod Metrics
pub mod Vector
pub mod RoundTrip
pub mod Score
pub mod Total
