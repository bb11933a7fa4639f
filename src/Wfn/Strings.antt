-- ===== src/Wfn/Strings.antt =====
-- wfn/matching.go: `matchStr`, the matching of a text against a source with wildcards.
use nvdtools.Prelude.{
  ℕ, Bool, true, false, not, ◌&&◌, ◌||◌, [], ◌∷◌, Bytes, codes, ◌==◌, if◌then◌else◌, ◌≡◌, refl,
}
use nvdtools.Wfn.Relation.{Relation, disjoint, equal, superset}
use nvdtools.Wfn.Wildcard.{backslash}

-- The inner loop over `i`: the rest of the source against each suffix of the text that is not empty.
unfoldable pub try_suffixes : (Bytes → Relation) → Bytes → Relation
try_suffixes rest [] = disjoint
try_suffixes rest (d ∷ t) = elim (rest (d ∷ t)) [ disjoint ↦ try_suffixes rest t | _ ↦ superset ]

-- The last loop: behind the end of the text the source may hold asterisks only.
unfoldable pub only_stars : Bytes → Bool
only_stars [] = true
only_stars (c ∷ s) = if c == b'*' then only_stars s else false

-- The branch of an unquoted asterisk, by what follows it in the source.
unfoldable pub after_star : Bytes → (Bytes → Relation) → Bytes → Relation
unfolding try_suffixes
after_star [] rest t = superset
after_star (c ∷ s) rest t = try_suffixes rest t

abbrev pub next_escape : Bool → ℕ → Bool
next_escape escaped c = if c == backslash then not escaped else false

-- The loop over `idx`, on what is left of the source and of the text from there on. Both have lost as
-- many bytes, so that the source is longer than the text exactly if more of it is left.
unfoldable pub match_from : Bytes → Bytes → Bool → Relation → Relation
unfolding after_star only_stars
match_from [] [] escaped matches_as = matches_as
match_from [] (d ∷ t) escaped matches_as = disjoint
match_from (c ∷ s) [] escaped matches_as = if only_stars (c ∷ s) then superset else disjoint
match_from (c ∷ s) (d ∷ t) escaped matches_as =
    let matches_as' = if not escaped && c == b'?' then superset else matches_as in
    let onward = match_from s t (next_escape escaped c) matches_as' in
    if not escaped && c == b'*'
    then after_star s (λ u. match_from s u false equal) (d ∷ t)
    else if (escaped || not (c == b'?')) && not (c == d)
    then disjoint
    else onward

unfoldable pub match_str : Bytes → Bytes → Relation
unfolding match_from
match_str s t = match_from s t false equal

star_in_the_middle : match_str (codes "b*l?") (codes "bill2") ≡ superset
unfolding match_str
star_in_the_middle = refl
