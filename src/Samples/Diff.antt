-- ===== src/Samples/Diff.antt =====
-- The diff of two feeds at a concrete input.
use nvdtools.Prelude.{
  ℕ, true, false, if◌then◌else◌, Option, none, some, List, [], ◌∷◌, Bytes, codes, ◌≡◌, refl, ◌↔◌,
  ◌⊎◌,
}
use nvdtools.Feed.Diff.{LangString, Vuln, nvd_vuln, other, Entries, stats}
use nvdtools.Feed.DiffOutput.{text_details, marshal_diff}
use nvdtools.Feed.DiffLaws.{shared_readable, summary, stats-changes}
use nvdtools.Feed.DiffPanics.{some_only_score, differences-none_iff}

abbrev english_text : Bytes → Option LangString
english_text text = some (record { lang = codes "en"; value = text })

abbrev item : List (Option LangString) → ℕ → Vuln
item texts tenths = nvd_vuln (record {
  cve = some (record { description = some (record { description_data = texts }) });
  impact = some (record {
    base_metric_v2 = none;
    base_metric_v3 = some (some (record { base_score = tenths; vector_string = [] }));
  });
})

-- One entry is in each feed only, one differs in its text and one in its score. A nil behind the
-- English text, or in an entry of one feed only, is not read.
abbrev first_feed : Entries
first_feed =
    (codes "A", item (none ∷ []) 50)
    ∷ (codes "B", item (english_text (codes "y") ∷ none ∷ []) 70)
    ∷ (codes "C", item (english_text (codes "z") ∷ []) 90)
    ∷ []

abbrev second_feed : Entries
second_feed =
    (codes "B", item (english_text (codes "yy") ∷ []) 70)
    ∷ (codes "C", item (english_text (codes "z") ∷ []) 98)
    ∷ (codes "D", other)
    ∷ []

stats-changes_example : stats first_feed second_feed ≡ (
    if shared_readable second_feed first_feed then some (summary first_feed second_feed) else none)
stats-changes_example = stats-changes first_feed second_feed

differences-none_iff_example : (marshal_diff first_feed second_feed ≡ none) ↔ (
    (shared_readable second_feed first_feed ≡ false)
    ⊎ (some_only_score second_feed first_feed ≡ true))
differences-none_iff_example = differences-none_iff first_feed second_feed

-- The entries of both feeds are read here, so that the statistics are there.
all_read : shared_readable second_feed first_feed ≡ true
unfolding shared_readable
all_read = refl

score_alone : some_only_score second_feed first_feed ≡ true
unfolding some_only_score nvdtools.Feed.DiffPanics.only_score
score_alone = refl

-- A feed with the one entry "B".
abbrev feed_of : Vuln → Entries
feed_of x = (codes "B", x) ∷ []

-- Where the text differs too, both chunks are written.
both_written :
    marshal_diff
      (feed_of (item (english_text (codes "y") ∷ []) 70))
      (feed_of (item (english_text (codes "x") ∷ []) 70))
    ≡ some ((codes "B", some (0, text_details (codes "y"), text_details (codes "x")) ∷ []) ∷ [])
unfolding marshal_diff
both_written = refl

-- An entry that `Override` made cannot be compared, not even with itself.
overridden_entry : stats (feed_of other) (feed_of other) ≡ none
unfolding stats
overridden_entry = refl

-- A nil before the English text is read.
nil_language :
    stats
      (feed_of (item (none ∷ english_text (codes "y") ∷ []) 70))
      (feed_of (item (english_text (codes "y") ∷ []) 70))
    ≡ none
unfolding stats
nil_language = refl
