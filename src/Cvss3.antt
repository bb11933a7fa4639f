-- ===== src/Cvss3.antt =====
-- cvss3: the vectors of the Common Vulnerability Scoring System, version 3.
pub mod Metrics
pub mod Vector
pub mod RoundTrip
pub mod Checked
pub mod Weights
pub mod Score
pub mod Bounds
pub mod Scale
