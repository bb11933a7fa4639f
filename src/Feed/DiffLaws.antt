-- ===== src/Feed/DiffLaws.antt =====
-- cvefeed/diff.go: what the statistics of a diff are, and when they panic.
use nvdtools.Prelude.{
  ℕ, ◌+◌, Bool, true, false, ◌&&◌, ◌||◌, Option, none, some, List, [], ◌∷◌, ◌++◌, Bytes,
  if◌then◌else◌, length, text_eq, codes, ◌≡◌, refl, ap, arith, Bool-cases, inl, inr, append_assoc,
  append-nil,
}
use nvdtools.Feed.Diff.{
  Impact, LangString, Description, Cve, Vuln, nvd_vuln, other, Entries, lookup, english,
  described_in, described_by, english_description, same_text, same_description, same_score,
  both_same, DiffEntry, DiffStats, add_entry, compared, compare_vulns, visit, visit_all,
  absent_from, unless_found, begin, stats,
}
use nvdtools.Feed.DiffOutput.{has_bit}

-- Whether there is an English text before the first nil, or no nil.
abbrev pub reads_text : List (Option LangString) → Bool
reads_text [] = true
reads_text (none ∷ ds) = false
reads_text (some d ∷ ds) = text_eq d.lang (codes "en") || reads_text ds

abbrev pub has_text : Option Cve → Bool
has_text none = false
has_text (some c) = of_description c.description
  where
    of_description : Option Description → Bool
    of_description none = false
    of_description (some d) = reads_text d.description_data

abbrev pub has_impact : Option Impact → Bool
has_impact none = false
has_impact (some i) = true

-- An entry of the NVD whose description and impact are read without a nil.
abbrev pub readable : Vuln → Bool
readable other = false
readable (nvd_vuln x) = has_text x.cve && has_impact x.impact

abbrev pub both_readable : Vuln → Option Vuln → Bool
both_readable x none = true
both_readable x (some y) = readable x && readable y

-- Whether the entries of both feeds can be compared.
unfoldable pub shared_readable : Entries → Entries → Bool
unfolding text_eq
shared_readable b [] = true
shared_readable b ((k, x) ∷ a) = both_readable x (lookup k b) && shared_readable b a

-- The chunks in which two entries differ.
abbrev pub same : Option Bool → Bool
same none = false
same (some b) = b

abbrev pub change : Bytes → Bool → Bool → List DiffEntry
change k true true = []
change k false true = record { id = k; bits = 1 } ∷ []
change k true false = record { id = k; bits = 2 } ∷ []
change k false false = record { id = k; bits = 3 } ∷ []

unfoldable pub change_of : Bytes → Vuln → Option Vuln → List DiffEntry
unfolding same_description same_score
change_of k x none = []
change_of k other (some y) = []
change_of k (nvd_vuln x) (some other) = []
change_of k (nvd_vuln x) (some (nvd_vuln y)) =
    change k (same (same_description x y)) (same (same_score x y))

-- The differences of the entries that both feeds have.
abbrev pub changes : Entries → Entries → List DiffEntry
changes b [] = []
changes b ((k, x) ∷ a) = change_of k x (lookup k b) ++ changes b a

-- The number of entries with a bit.
abbrev pub count_bit : ℕ → List DiffEntry → ℕ
count_bit i [] = 0
count_bit i (e ∷ es) = (if has_bit e.bits i then 1 else 0) + count_bit i es

count_bit-append :
    (i : ℕ) (xs ys : List DiffEntry) → count_bit i (xs ++ ys) ≡ count_bit i xs + count_bit i ys
count_bit-append i [] ys = omega arith
count_bit-append i (x ∷ xs) ys = omega (arith, count_bit-append i xs ys)

-- The statistics after a part of the first feed.
abbrev plus : DiffStats → List Bytes → List DiffEntry → DiffStats
plus s ids es = record s {
  a_not_b = s.a_not_b ++ ids;
  entries = s.entries ++ es;
  description_count = s.description_count + count_bit 0 es;
  score_count = s.score_count + count_bit 1 es;
}

plus-plus :
    (s : DiffStats) (i j : List Bytes) (d e : List DiffEntry)
    → plus (plus s i d) j e ≡ plus s (i ++ j) (d ++ e)
plus-plus s i j d e =
    let x : s.description_count + count_bit 0 d + count_bit 0 e
        ≡ s.description_count + count_bit 0 (d ++ e) =
      omega (arith, count_bit-append 0 d e) in
    let y : s.score_count + count_bit 1 d + count_bit 1 e ≡ s.score_count + count_bit 1 (d ++ e) =
      omega (arith, count_bit-append 1 d e) in
    rw (append_assoc s.a_not_b i j, append_assoc s.entries d e, x, y) refl

add_entry-plus :
    (k : Bytes) (p q : Bool) (s : DiffStats) → add_entry k p q s ≡ plus s [] (change k p q)
add_entry-plus k p q s =
    let x : s.description_count + 0 ≡ s.description_count = omega arith in
    let y : s.score_count + 0 ≡ s.score_count = omega arith in split p q x y
  where
    split :
        (p q : Bool)
        → s.description_count + 0 ≡ s.description_count
        → s.score_count + 0 ≡ s.score_count
        → add_entry k p q s ≡ plus s [] (change k p q)
    split true true x y = rw (append-nil s.a_not_b, append-nil s.entries, x, y) refl
    split false true x y = rw (append-nil s.a_not_b, y) refl
    split true false x y = rw (append-nil s.a_not_b, x) refl
    split false false x y = rw (append-nil s.a_not_b) refl

-- Reading the text of a description panics at a nil before it.
abbrev pub is_some : Option Bytes → Bool
is_some none = false
is_some (some t) = true

english-reads_text : (ds : List (Option LangString)) → is_some (english ds) ≡ reads_text ds
english-reads_text [] = refl
english-reads_text (none ∷ ds) = refl
english-reads_text (some d ∷ ds) = elim (Bool-cases (text_eq d.lang (codes "en"))) [
  | inl e ↦ rw e refl
  | inr e ↦ rw e (english-reads_text ds)
]

pub described_by-has_text : (c : Option Cve) → is_some (described_by c) ≡ has_text c
described_by-has_text none = refl
described_by-has_text (some c) = of_description c.description
  where
    of_description :
        (d : Option Description)
        → is_some (described_in d) ≡ has_text (some (record { description = d }))
    of_description none = refl
    of_description (some d) = english-reads_text d.description_data

compared-plus :
    (k : Bytes) (s : DiffStats) (p q : Option Bytes) (i j : Option Impact)
    → compared k (same_text p q) (both_same i j) s ≡ (
        if (is_some p && has_impact i) && (is_some q && has_impact j)
        then some (plus s [] (change k (same (same_text p q)) (same (both_same i j))))
        else none)
compared-plus k s none q i j = refl
compared-plus k s (some p) none none j = refl
compared-plus k s (some p) none (some i) j = refl
compared-plus k s (some p) (some q) none j = refl
compared-plus k s (some p) (some q) (some i) none = refl
compared-plus k s (some p) (some q) (some i) (some j) = ap some (add_entry-plus k _ _ s)

compare_vulns-plus :
    (k : Bytes) (x y : Vuln) (s : DiffStats)
    → compare_vulns k x y s
      ≡ (if readable x && readable y then some (plus s [] (change_of k x (some y))) else none)
unfolding change_of same_description same_score english_description
compare_vulns-plus k other y s = refl
compare_vulns-plus k (nvd_vuln x) other s = elim (Bool-cases (readable (nvd_vuln x))) [
  | inl e ↦ rw e refl
  | inr e ↦ rw e refl
]
compare_vulns-plus k (nvd_vuln x) (nvd_vuln y) s =
    rw⁻¹ (described_by-has_text x.cve, described_by-has_text y.cve)
      (compared-plus k s (described_by x.cve) (described_by y.cve) x.impact y.impact)

-- One entry of the first feed.
visit-plus :
    (k : Bytes) (x : Vuln) (o : Option Vuln) (s : DiffStats)
    → visit k x o s
      ≡ (if both_readable x o then some (plus s (unless_found k o []) (change_of k x o)) else none)
visit-plus k x none s =
    unfold change_of in
    let z : s.description_count + 0 ≡ s.description_count = omega arith in
    let y : s.score_count + 0 ≡ s.score_count = omega arith in rw (append-nil s.entries, z, y) refl
visit-plus k x (some y) s = compare_vulns-plus k x y s

unless_found-append :
    (k : Bytes) (o : Option Vuln) (ids : List Bytes)
    → unless_found k o [] ++ ids ≡ unless_found k o ids
unless_found-append k none ids = refl
unless_found-append k (some y) ids = refl

visit_all-plus :
    (b a : Entries) (s : DiffStats)
    → visit_all b a s
      ≡ (if shared_readable b a then some (plus s (absent_from b a) (changes b a)) else none)
unfolding visit_all absent_from shared_readable
visit_all-plus b [] s =
    let x : s.description_count + 0 ≡ s.description_count = omega arith in
    let y : s.score_count + 0 ≡ s.score_count = omega arith in
    rw (append-nil s.a_not_b, append-nil s.entries, x, y) refl
visit_all-plus b ((k, x) ∷ a) s = elim (Bool-cases (both_readable x (lookup k b))) [
  | inl e ↦
      rw
        (
          visit-plus k x (lookup k b) s,
          e,
          visit_all-plus b a (plus s (unless_found k (lookup k b) []) (change_of k x (lookup k b))),
          plus-plus s (unless_found k (lookup k b) []) (absent_from b a)
              (change_of k x (lookup k b)) (changes b a),
          unless_found-append k (lookup k b) (absent_from b a),
        )
        refl
  | inr e ↦ rw (visit-plus k x (lookup k b) s, e) refl
]

-- The ids that one feed alone has, the entries of both that differ, and how many of these differ in
-- each chunk.
unfoldable pub summary : Entries → Entries → DiffStats
summary a b = record {
  num_vulns_a = length a;
  num_vulns_b = length b;
  a_not_b = absent_from b a;
  b_not_a = absent_from a b;
  entries = changes b a;
  description_count = count_bit 0 (changes b a);
  score_count = count_bit 1 (changes b a);
}

-- Where the entries that both feeds have are of the NVD, with an impact and a description that is read
-- without a nil, the statistics list the ids of each feed that the other has not and the entries of
-- both that differ, with their chunks, and count how many of these have each chunk. Elsewhere they
-- panic.
pub stats-changes :
    (a b : Entries) → stats a b ≡ (if shared_readable b a then some (summary a b) else none)
unfolding stats summary
stats-changes a b = elim (Bool-cases (shared_readable b a)) [
  | inl e ↦ rw (visit_all-plus b a (begin a b), e) (ap some counted)
  | inr e ↦ rw (visit_all-plus b a (begin a b), e) refl
]
  where
    counted :
        record (plus (begin a b) (absent_from b a) (changes b a)) { b_not_a = absent_from a b }
        ≡ summary a b
    counted =
        let x : 0 + count_bit 0 (changes b a) ≡ count_bit 0 (changes b a) = omega arith in
        let y : 0 + count_bit 1 (changes b a) ≡ count_bit 1 (changes b a) = omega arith in
        rw (x, y) refl
