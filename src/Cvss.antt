-- ===== src/Cvss.antt =====
-- cvss2 and cvss3: the metrics of a vector, and its text.
pub mod Metric
pub mod Floats
pub mod Parts
pub mod RoundTrip
pub mod Absorb
pub mod Valid
