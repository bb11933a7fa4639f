-- ===== src/Nvd.antt =====
-- cvefeed/nvd: the comparison of versions and the matching of vulnerability entries.
pub mod SmartVer
pub mod SmartOrder
pub mod MatchCpe
pub mod Ranges
pub mod MatchNode
pub mod Nodes
pub mod Readable
pub mod AndNode
