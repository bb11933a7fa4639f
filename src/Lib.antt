-- ===== src/Lib.antt =====
-- A model of nvdtools, the tools that match software names (CPE) against the feeds of the National
-- Vulnerability Database, with the proofs of what its core computes.
--
-- The parts of the program, and the files that model them:
--   rpm/compare.go, rpm/parse.go        Rpm (Compare, Parse; Key is the specification, Rounds and
--                                       Order prove that the loop meets it, RoundTrip the parser)
--   wfn/wfn.go, wfn/matching.go,        Wfn (Attributes, Relation, Wildcard, Strings, Matching,
--   wfn/matcher.go, wfn/fsb.go,         Slashes, Fragment, FmtString, Matcher; Pattern, the tokens of
--   wfn/uri.go                          Spelled and the functions `picks` of Matcher are
--                                       specifications; Uri, UriName, Parse, Wfnize, Display; Quotes,
--                                       UriRound, UriValue, UriEnds, UriNameEnds, Decides, Equality,
--                                       Agreement, Picks, Spelled and FmtRound are proofs)
--   cvefeed/nvd/smartvercmp.go,         Nvd (SmartVer, MatchCpe, MatchNode; proofs in SmartOrder,
--   cvefeed/nvd/match_cpe.go,           Ranges, Nodes, AndNode, Readable)
--   cvefeed/nvd/match_node.go,
--   cvefeed/nvd/match_cve.go
--   cvefeed/cvecache.go,                Feed (Index; proofs in Entries, Lookup, Origin; Override; Queue,
--   cvefeed/evictionqueue.go,           with Moves, Shifts, QueueLaws, HeapUp, HeapDown,
--                                       HeapQueue and QueueSpec; Cache, with CacheMap,
--   cvefeed/diff.go, cvefeed/vuln.go,   CacheInv, CacheFinish, CacheSteps and CacheGet; Keys, with
--   cvefeed/dictionary.go               KeyOrder; Diff and DiffOutput, with DiffLaws and
--                                       DiffPanics)
--   rpm/checker.go                      Rpm (Checker)
--   providers/redhat/check/             Redhat (Check; Upgrade is the proof)
--   providers/lib/client/retry.go       Client (Retry; Recovers is the proof)
--   cmd/lininfosec/                     Lininfosec (Store, the tables; Monitor; Notify; Pipeline, the
--                                       goroutines; Table is the specification; Rows, Effects,
--                                       Refines, Permits, Once and Progress are proofs)
--   cpedict/lookup.go                   Cpedict (Search; Results is the proof)
--   cmd/cpe2cve/, cmd/csv2cpe/          Columns (Skip; Compact and Place are proofs)
--   vulndb/sqlutil/                     Sql (Builder and Records; Marks, Totals and Balance are the
--                                       invariant of the statements)
--   cvss2/, cvss3/                      Cvss (Metric and Parts, the code that both packages hold;
--                                       RoundTrip, Absorb and Valid are proofs), Cvss2 and Cvss3
--                                       (Metrics and Vector; Score, over the interface Cvss.Floats;
--                                       RoundTrip, Checked, Weights, Bounds, Scale and Total are
--                                       proofs)
-- A CPE match of an NVD entry (MatchCpe) compares names attribute by attribute (Matching) and versions
-- by ranges (SmartVer); nodes of an entry (MatchNode) combine such matches by the matchers (Matcher).
-- The function that reads the names of the matches, wfn.Parse (Parse), is an argument of MatchNode, of
-- Checker and of Check.
--
-- A Go string is a list of its bytes. Where the source tests runes (unicode.IsLetter, ToUpper,
-- IndexFunc) the texts are taken to be ASCII. Results -1, 0 and 1 of a comparison are `lt`, `eq` and
-- `gt`. A pointer that matchers return is a number. Pointers to attributes are not nil, but in the
-- lists of an entry or a query, where nil is `none`. The struct of a vector's metrics is a function
-- from its fields; a metric is its int, and a method that indexes past a table panics, `none`. The
-- weights of metrics are in thousandths.
--
-- Names: versionCompare is Rpm.Compare.version_compare, LabelCompare is label_compare, and so on for
-- each function; a loop of a function is `loop`, or a function named for its round. The loops of
-- versionCompare and smartVerCmp run on fuel, the sum of the lengths of both texts (plus one), which is
-- enough since each round reads a byte at least of each text; that they answer is proved.
-- A call of the cache's Get is two functions, one for each time it holds the lock, and the steps of calls
-- that come in between each other are a relation (CacheSteps). The steps keep the indices that evicted entries hold,
-- since a call that waited for one touches it. The heap of the eviction is the code of
-- container/heap on a slice; its loops run on fuel, more than the length of the slice; the eviction has
-- one round more than there are entries. The loops that read a URI have one round more than its bytes.
-- A call of the database driver that fails is one of a set of numbers (Faults), arbitrary in the theorems;
-- a statement is a function on the tables of the schema, which refuses what a constraint does not allow.
-- Go's order over a map is not fixed: Absorb takes the order as an argument, and the sets of the
-- matchers are compared by their items.
--
-- Not modelled: the loading of dictionaries in cvefeed, most
-- providers, the database, and most commands, most of which is decoding and input or output.
pub mod Prelude
mod Samples
pub mod Rpm
pub mod Redhat
pub mod Client
pub mod Cpedict
pub mod Columns
pub mod Lininfosec
pub mod Wfn
pub mod Nvd
pub mod Feed
pub mod Sql
pub mod Cvss
pub mod Cvss2
pub mod Cvss3
