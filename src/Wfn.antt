-- ===== src/Wfn.antt =====
-- wfn: well-formed names, their attributes and the matching of names.
pub mod Attributes
pub mod Relation
pub mod Wildcard
pub mod Strings
pub mod Slashes
pub mod Pattern
pub mod Decides
pub mod Equality
pub mod Matching
pub mod Agreement
pub mod Matcher
pub mod Picks
pub mod Fragment
pub mod Wfnize
pub mod Quotes
pub mod FmtString
pub mod Spelled
pub mod FmtRound
pub mod Uri
pub mod UriName
pub mod UriRound
pub mod UriValue
pub mod UriEnds
pub mod UriNameEnds
pub mod Parse
pub mod Display
