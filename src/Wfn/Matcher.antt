-- ===== src/Wfn/Matcher.antt =====
-- wfn/matcher.go: the matchers, which pick among attributes. Attributes are pointers, numbers here,
-- and `L` is the type of the matchers that other packages implement, with what they accept.
use nvdtools.Prelude.{
  ℕ, Bool, true, false, not, ◌&&◌, ◌||◌, Option, none, some, List, [], ◌∷◌, ◌==◌, if◌then◌else◌,
  is_empty,
}

mutual
  pub data Matcher (L : Type 0) : Type 0 where
    leaf : L → Matcher L
    multi : Matchers L → Bool → Matcher L
    negated : Matcher L → Matcher L

  pub data Matchers (L : Type 0) : Type 0 where
    nil : Matchers L
    cons : Matcher L → Matchers L → Matchers L

abbrev pub match_all : {L : Type 0} → Matchers L → Matcher L
match_all ms = multi ms true

abbrev pub match_any : {L : Type 0} → Matchers L → Matcher L
match_any ms = multi ms false

abbrev pub dont_match : {L : Type 0} → Matcher L → Matcher L
dont_match m = negated m

-- Whether a set of pointers, held as a list, has an item.
unfoldable pub contains : ℕ → List ℕ → Bool
contains a [] = false
contains a (x ∷ xs) = x == a || contains a xs

-- `matched[m] = true` for each `m`. The order of a Go map is not fixed; here new items come first.
unfoldable pub insert_all : List ℕ → List ℕ → List ℕ
insert_all [] set = set
insert_all (x ∷ xs) set = insert_all xs (if contains x set then set else x ∷ set)

-- The items for which the test holds, in order.
unfoldable pub select : (ℕ → Bool) → List ℕ → List ℕ
select p [] = []
select p (x ∷ xs) = if p x then x ∷ select p xs else select p xs

-- The early return of a matcher that wants all of its parts to match something.
abbrev pub merge : Bool → List ℕ → Option (List ℕ) → Option (List ℕ)
merge all_match matches rest = if all_match && is_empty matches then none else rest

abbrev pub or_nothing : Option (List ℕ) → List ℕ
or_nothing none = []
or_nothing (some set) = set

module _ {L : Type 0} (accepts : L → ℕ → Bool) (attrs : List ℕ) where
  unfoldable mutual
    -- `Match`. Whether a version is required is part of `accepts`.
    pub run : Matcher L → List ℕ
    run (leaf l) = select (accepts l) attrs
    run (multi ms all_match) = or_nothing (run_each ms all_match [])
    run (negated m) = let matched = run m in select (λ a. not (contains a matched)) attrs

    -- The loop over the matchers of a `multiMatcher`, with the set `matched`.
    pub run_each : Matchers L → Bool → List ℕ → Option (List ℕ)
    run_each nil all_match matched = some matched
    run_each (cons m ms) all_match matched =
        let matches = run m in
        merge all_match matches (run_each ms all_match (insert_all matches matched))

  unfoldable mutual
    -- What a matcher picks, as a test of one item: a conjunction picks what one of its parts picks
    -- if each part picks something, and a negation picks the items that its part leaves.
    pub picks : Matcher L → ℕ → Bool
    picks (leaf l) a = contains a attrs && accepts l a
    picks (multi ms all_match) a = picks_one ms a && (not all_match || each_picks ms)
    picks (negated m) a = contains a attrs && not (picks m a)

    pub picks_one : Matchers L → ℕ → Bool
    picks_one nil a = false
    picks_one (cons m ms) a = picks m a || picks_one ms a

    pub each_picks : Matchers L → Bool
    each_picks nil = true
    each_picks (cons m ms) = not (is_empty (select (picks m) attrs)) && each_picks ms
