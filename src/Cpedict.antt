-- ===== src/Cpedict.antt =====
-- cpedict: the dictionary of names, and its search.
pub mod Search
pub mod Results
