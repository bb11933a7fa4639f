-- ===== src/Feed/DiffPanics.antt =====
-- cvefeed/diff.go: when comparing two feeds and writing their differences panics.
use nvdtools.Prelude.{
  ℕ, Bool, true, false, not, ◌&&◌, ◌||◌, Option, none, some, List, [], ◌∷◌, ◌++◌, Bytes, text_eq,
  text_eq_iff, text_eq_refl, ◌≡◌, refl, sym, ap, ◌∙◌, subst, arith, Bool-cases, ◌↔◌, ◌⊎◌, inl, inr,
}
use nvdtools.Feed.Diff.{
  CveItem, Vuln, nvd_vuln, other, Entries, lookup, english_description, described_by,
  same_description, same_score, DiffEntry, stats,
}
use nvdtools.Feed.DiffOutput.{
  gen_entry_diff_output, add_output, Chunk, text_details, impact_details, write_chunks,
  diff_details, differences, differences_of, marshal_diff,
}
use nvdtools.Feed.DiffLaws.{
  readable, both_readable, shared_readable, same, change, change_of, changes, summary,
  stats-changes, described_by-has_text, is_some,
}

-- Whether an entry of both feeds differs in its score and not in its description.
unfoldable pub only_score : Vuln → Option Vuln → Bool
unfolding same_description same_score
only_score x none = false
only_score other (some y) = false
only_score (nvd_vuln x) (some other) = false
only_score (nvd_vuln x) (some (nvd_vuln y)) =
    same (same_description x y) && not (same (same_score x y))

unfoldable pub some_only_score : Entries → Entries → Bool
unfolding text_eq only_score
some_only_score b [] = false
some_only_score b ((k, x) ∷ a) = only_score x (lookup k b) || some_only_score b a

or_no : {P : Type 0} → (false ≡ true) ⊎ P → P
or_no (inl e) = cc
or_no (inr p) = p

-- The entries that an id has in both feeds are read.
abbrev Shown : Entries → Entries → Bytes → Type 0
Shown a b k =
    (x : CveItem) × (y : CveItem) × (lookup k a ≡ some (nvd_vuln x))
    × (lookup k b ≡ some (nvd_vuln y))
    × (readable (nvd_vuln x) ≡ true)
    × (readable (nvd_vuln y) ≡ true)

is_some-some : (o : Option Bytes) → is_some o ≡ true → (t : Bytes) × (o ≡ some t)
is_some-some none e = cc
is_some-some (some t) e = (t, refl)

english_description-some :
    (x : CveItem) → readable (nvd_vuln x) ≡ true → (t : Bytes) × (english_description x ≡ some t)
unfolding english_description
english_description-some x r =
    is_some-some (described_by x.cve) (described_by-has_text x.cve ∙ ground arith)

-- Writing an entry panics for the chunk of a score alone, past the one place there is.
module _ (a b : Entries) (k : Bytes) (shown : Shown a b k) where
  abbrev Writes : ℕ → Type 0
  Writes bits =
      (o : List (Option Chunk)) × (gen_entry_diff_output a b (record { id = k; bits = bits })
        ≡ some o)

  gen_entry_diff_output-text : Writes 1
  unfolding gen_entry_diff_output write_chunks diff_details
  gen_entry_diff_output-text =
      let (x, y, p, q, r, s) = shown in
      let (t, e) = english_description-some x r in
      let (u, f) = english_description-some y s in
      (some (0, text_details t, text_details u) ∷ [], rw (p, q, e, f) refl)

  gen_entry_diff_output-both : Writes 3
  unfolding gen_entry_diff_output write_chunks diff_details
  gen_entry_diff_output-both =
      let (x, y, p, q, r, s) = shown in
      let (t, e) = english_description-some x r in
      let (u, f) = english_description-some y s in
      (
        some (0, text_details t, text_details u)
            ∷ some (1, impact_details x.impact, impact_details y.impact)
            ∷ [],
        rw (p, q, e, f) refl,
      )

  gen_entry_diff_output-score : gen_entry_diff_output a b (record { id = k; bits = 2 }) ≡ none
  unfolding gen_entry_diff_output write_chunks diff_details
  gen_entry_diff_output-score = let (x, y, p, q, r, s) = shown in rw (p, q) refl

  written-none :
      (bits : ℕ) (es : List DiffEntry)
      → Writes bits
      → (differences a b (record { id = k; bits = bits } ∷ es) ≡ none) ↔ (differences a b es ≡ none)
  unfolding differences
  written-none bits es (o, e) = (λ d. add_output-none k o _ (rw e at d), λ d. rw (e, d) refl)
    where
      add_output-none :
          (id : Bytes) (o : List (Option Chunk)) (r : Option (List (Bytes × List (Option Chunk))))
          → add_output id (some o) r ≡ none
          → r ≡ none
      add_output-none id o none e = refl
      add_output-none id o (some r) e = cc

  change-differences :
      (p q : Bool) (es : List DiffEntry)
      → (differences a b (change k p q ++ es) ≡ none)
        ↔ ((p && not q ≡ true) ⊎ (differences a b es ≡ none))
  change-differences true true es = (inr, or_no)
  change-differences false true es =
      let (f, g) = written-none 1 es gen_entry_diff_output-text in
      (λ e. inr (f e), λ o. g (or_no o))
  change-differences true false es =
      (λ e. inl refl, λ o. unfold differences in rw gen_entry_diff_output-score refl)
  change-differences false false es =
      let (f, g) = written-none 3 es gen_entry_diff_output-both in
      (λ e. inr (f e), λ o. g (or_no o))

-- The entries of an id that both feeds have can be read, if all these can.
lookup-both_readable :
    (b a : Entries) (k : Bytes) (x y : Vuln)
    → shared_readable b a ≡ true
    → lookup k a ≡ some x
    → lookup k b ≡ some y
    → both_readable x (some y) ≡ true
unfolding shared_readable
lookup-both_readable b [] k x y r p q = cc
lookup-both_readable b ((j, z) ∷ a) k x y r p q = elim (Bool-cases (text_eq j k)) [
  | inl e ↦
      let found : lookup j b ≡ some y = ap (λ i. lookup i b) ((text_eq_iff j k).0 e) ∙ q in
      let here : some z ≡ some x = rw e at p in
      let same_one : z ≡ x = cc in
      let one : both_readable z (lookup j b) ≡ true = ground arith in
      subst (λ v. both_readable v (some y) ≡ true) same_one (rw found at one)
  | inr e ↦ lookup-both_readable b a k x y (ground arith) (rw e at p) q
]

lookup-Shown :
    (a b : Entries) (k : Bytes) (x y : Vuln)
    → lookup k a ≡ some x
    → lookup k b ≡ some y
    → both_readable x (some y) ≡ true
    → Shown a b k
lookup-Shown a b k other y p q r = cc
lookup-Shown a b k (nvd_vuln x) other p q r = absurd (ground arith)
lookup-Shown a b k (nvd_vuln x) (nvd_vuln y) p q r = (x, y, p, q, ground arith, ground arith)

-- The differences of a part of the first feed.
module _ (a b : Entries) (all_read : shared_readable b a ≡ true) where
  one-differences :
      (k : Bytes) (x z : Vuln) (o : Option Vuln) (es : List DiffEntry)
      → lookup k a ≡ some z
      → lookup k b ≡ o
      → (differences a b (change_of k x o ++ es) ≡ none)
        ↔ ((only_score x o ≡ true) ⊎ (differences a b es ≡ none))
  unfolding change_of only_score
  one-differences k x z none es p q = (inr, or_no)
  one-differences k other z (some y) es p q = (inr, or_no)
  one-differences k (nvd_vuln x) z (some other) es p q = (inr, or_no)
  one-differences k (nvd_vuln x) z (some (nvd_vuln y)) es p q =
      change-differences a b k
        (lookup-Shown a b k z (nvd_vuln y) p q
          (lookup-both_readable b a k z (nvd_vuln y) all_read p q))
        (same (same_description x y)) (same (same_score x y)) es

  changes-differences :
      (part : Entries)
      → ((k : Bytes) (x : Vuln) → lookup k part ≡ some x → (z : Vuln) × (lookup k a ≡ some z))
      → (differences a b (changes b part) ≡ none) ↔ (some_only_score b part ≡ true)
  unfolding some_only_score
  changes-differences [] has = unfold differences in (λ e. cc, λ e. cc)
  changes-differences ((k, x) ∷ part) has =
      let (z, found) = has k x (rw (text_eq_refl k) refl) in
      let (f, g) = one-differences k x z (lookup k b) (changes b part) found refl in
      let (f', g') = changes-differences part later in
      (
        λ e. either (only_score x (lookup k b)) (some_only_score b part) (both f' (f e)),
        λ e. g (back g' (split (only_score x (lookup k b)) (some_only_score b part) e)),
      )
    where
      later : (j : Bytes) (y : Vuln) → lookup j part ≡ some y → (z : Vuln) × (lookup j a ≡ some z)
      later j y e = elim (Bool-cases (text_eq k j)) [
        | inl t ↦ has j x (rw t refl)
        | inr t ↦ has j y (rw t e)
      ]

      both :
          (differences a b (changes b part) ≡ none → some_only_score b part ≡ true)
          → (only_score x (lookup k b) ≡ true) ⊎ (differences a b (changes b part) ≡ none)
          → (only_score x (lookup k b) ≡ true) ⊎ (some_only_score b part ≡ true)
      both f' (inl e) = inl e
      both f' (inr e) = inr (f' e)

      back :
          (some_only_score b part ≡ true → differences a b (changes b part) ≡ none)
          → (only_score x (lookup k b) ≡ true) ⊎ (some_only_score b part ≡ true)
          → (only_score x (lookup k b) ≡ true) ⊎ (differences a b (changes b part) ≡ none)
      back g' (inl e) = inl e
      back g' (inr e) = inr (g' e)

      either : (p q : Bool) → (p ≡ true) ⊎ (q ≡ true) → (p || q) ≡ true
      either p q o = ground arith

      split : (p q : Bool) → (p || q) ≡ true → (p ≡ true) ⊎ (q ≡ true)
      split p q e = ground arith

-- Comparing two feeds and writing their differences panics if and only if an entry that both have is
-- not of the NVD, or lacks its impact, or has a nil on the way to its description, or one differs in
-- its score and not in its description.
pub differences-none_iff :
    (a b : Entries)
    → (marshal_diff a b ≡ none) ↔ ((shared_readable b a ≡ false) ⊎ (some_only_score b a ≡ true))
unfolding marshal_diff
differences-none_iff a b = elim (Bool-cases (shared_readable b a)) [
  | inl r ↦
      let (f, g) = changes-differences a b r a (λ k x e. (x, e)) in
      let written : differences_of a b (stats a b) ≡ differences a b (changes b a) =
        ap (differences_of a b) (stats-changes a b) ∙ rw r (unfold summary in refl) in
      (λ e. inr (f (sym written ∙ e)), λ o. written ∙ g (only o r))
  | inr r ↦ (λ e. inl r, λ o. ap (differences_of a b) (stats-changes a b) ∙ rw r refl)
]
  where
    only :
        (shared_readable b a ≡ false) ⊎ (some_only_score b a ≡ true)
        → shared_readable b a ≡ true
        → some_only_score b a ≡ true
    only (inl e) r = cc
    only (inr e) r = e
