-- ===== src/Feed/Diff.antt =====
-- cvefeed/diff.go: the differences of two feeds.
--
-- A dictionary is the list of its entries in the order in which Go visits it. A score is a number of
-- tenths. What panics is `none`: a nil pointer that is read (`CVE`, `Description`, a language entry,
-- `Impact`), an entry that is no `*nvd.Vuln` where one is asserted, an index past a slice.
use nvdtools.Prelude.{
  ℕ, ◌+◌, Bool, true, false, ◌&&◌, Option, none, some, List, [], ◌∷◌, ◌++◌, Bytes, ◌==◌,
  if◌then◌else◌, length, text_eq, codes,
}

-- `CVSSV2` and `CVSSV3`: a base score and a vector.
pub record Score : Type 0 where
  pub base_score : ℕ
  pub vector_string : Bytes

pub record Impact : Type 0 where
  pub base_metric_v2 : Option (Option Score)
  pub base_metric_v3 : Option (Option Score)

pub record LangString : Type 0 where
  pub lang : Bytes
  pub value : Bytes

-- `CVEJSON40Description`, with pointers to its language entries.
pub record Description : Type 0 where
  pub description_data : List (Option LangString)

-- `CVEJSON40`
pub record Cve : Type 0 where
  pub description : Option Description

-- The part of an item that is compared.
pub record CveItem : Type 0 where
  pub cve : Option Cve
  pub impact : Option Impact

-- An entry of a dictionary: a `*nvd.Vuln`, by its schema, or another, such as one that `Override` made,
-- or nil.
pub data Vuln : Type 0 where
  nvd_vuln : CveItem → Vuln
  other : Vuln

-- `Dictionary`, by ids
abbrev pub Entries : Type 0
Entries = List (Bytes × Vuln)

abbrev pub lookup : Bytes → Entries → Option Vuln
lookup k [] = none
lookup k ((j, x) ∷ d) = if text_eq j k then some x else lookup k d

abbrev pub english : List (Option LangString) → Option Bytes
english [] = some []
english (none ∷ ds) = none
english (some d ∷ ds) = if text_eq d.lang (codes "en") then some d.value else english ds

abbrev pub described_in : Option Description → Option Bytes
described_in none = none
described_in (some d) = english d.description_data

abbrev pub described_by : Option Cve → Option Bytes
described_by none = none
described_by (some c) = described_in c.description

-- `englishDescription`
unfoldable pub english_description : CveItem → Option Bytes
english_description s = described_by s.cve

abbrev pub same_text : Option Bytes → Option Bytes → Option Bool
same_text none b = none
same_text (some a) none = none
same_text (some a) (some b) = some (text_eq a b)

unfoldable pub same_description : CveItem → CveItem → Option Bool
unfolding english_description
same_description a b = same_text (english_description a) (english_description b)

-- The score and the vector of a metric, 0 and empty if there is none.
abbrev pub score_of : Option (Option Score) → ℕ × Bytes
score_of none = (0, [])
score_of (some none) = (0, [])
score_of (some (some s)) = (s.base_score, s.vector_string)

abbrev pub same_metric : Option (Option Score) → Option (Option Score) → Bool
same_metric a b =
    let (a_score, a_vector) = score_of a in
    let (b_score, b_vector) = score_of b in (a_score == b_score) && text_eq a_vector b_vector

-- `sameScoreCVSSV2` and `sameScoreCVSSV3`
abbrev pub both_same : Option Impact → Option Impact → Option Bool
both_same none b = none
both_same (some a) none = none
both_same (some a) (some b) =
    some (
      same_metric a.base_metric_v2 b.base_metric_v2
      && same_metric a.base_metric_v3 b.base_metric_v3)

unfoldable pub same_score : CveItem → CveItem → Option Bool
same_score a b = both_same a.impact b.impact

pub record DiffEntry : Type 0 where
  pub id : Bytes
  pub bits : ℕ

pub record DiffStats : Type 0 where
  pub num_vulns_a : ℕ
  pub num_vulns_b : ℕ
  pub a_not_b : List Bytes
  pub b_not_a : List Bytes
  pub entries : List DiffEntry
  pub description_count : ℕ
  pub score_count : ℕ

-- An entry of both feeds that differs in its description or its score.
abbrev pub add_entry : Bytes → Bool → Bool → DiffStats → DiffStats
add_entry key true true s = s
add_entry key false true s = record s {
  entries = s.entries ++ record { id = key; bits = 1 } ∷ [];
  description_count = s.description_count + 1;
}
add_entry key true false s = record s {
  entries = s.entries ++ record { id = key; bits = 2 } ∷ [];
  score_count = s.score_count + 1;
}
add_entry key false false s = record s {
  entries = s.entries ++ record { id = key; bits = 3 } ∷ [];
  description_count = s.description_count + 1;
  score_count = s.score_count + 1;
}

abbrev pub compared : Bytes → Option Bool → Option Bool → DiffStats → Option DiffStats
compared key none score s = none
compared key (some description) none s = none
compared key (some description) (some score) s = some (add_entry key description score s)

-- The two assertions `.(*nvd.Vuln)`, and the comparison.
abbrev pub compare_vulns : Bytes → Vuln → Vuln → DiffStats → Option DiffStats
compare_vulns key other b s = none
compare_vulns key (nvd_vuln a) other s = none
compare_vulns key (nvd_vuln a) (nvd_vuln b) s =
    compared key (same_description a b) (same_score a b) s

abbrev pub visit : Bytes → Vuln → Option Vuln → DiffStats → Option DiffStats
visit key a none s = some (record s { a_not_b = s.a_not_b ++ key ∷ [] })
visit key a (some b) s = compare_vulns key a b s

abbrev pub and_then : Option DiffStats → (DiffStats → Option DiffStats) → Option DiffStats
and_then none f = none
and_then (some s) f = f s

-- The loop over the first feed.
unfoldable pub visit_all : Entries → Entries → DiffStats → Option DiffStats
unfolding same_description same_score text_eq
visit_all b [] s = some s
visit_all b ((key, x) ∷ a) s = and_then (visit key x (lookup key b) s) (visit_all b a)

abbrev pub unless_found : Bytes → Option Vuln → List Bytes → List Bytes
unless_found key none ids = key ∷ ids
unless_found key (some x) ids = ids

-- The loop over the second feed.
unfoldable pub absent_from : Entries → Entries → List Bytes
unfolding text_eq
absent_from a [] = []
absent_from a ((key, x) ∷ b) = unless_found key (lookup key a) (absent_from a b)

abbrev pub with_rest : Entries → Entries → Option DiffStats → Option DiffStats
with_rest a b none = none
with_rest a b (some s) = some (record s { b_not_a = absent_from a b })

abbrev pub begin : Entries → Entries → DiffStats
begin a b = record {
  num_vulns_a = length a;
  num_vulns_b = length b;
  a_not_b = [];
  b_not_a = [];
  entries = [];
  description_count = 0;
  score_count = 0;
}

-- `stats`
unfoldable pub stats : Entries → Entries → Option DiffStats
unfolding visit_all absent_from
stats a b = with_rest a b (visit_all b a (begin a b))
