-- ===== src/Wfn/Picks.antt =====
-- wfn/matcher.go: what a tree of matchers returns, whatever the order of the sets that it builds.
use nvdtools.Prelude.{
  ℕ, Bool, true, false, not, ◌&&◌, ◌||◌, Option, none, some, List, [], ◌∷◌, ◌==◌, is_empty, ◌≡◌,
  refl, sym, ap, arith, inl, inr, Bool-cases, ◌∙◌,
}
use nvdtools.Wfn.Matcher.{
  Matcher, leaf, multi, negated, Matchers, nil, cons, contains, insert_all, select, merge,
  or_nothing, run, run_each, picks, picks_one, each_picks,
}

==_true : (a b : ℕ) → a == b ≡ true → a ≡ b
==_true a b h = ground arith

pub contains-insert_all :
    (a : ℕ) (xs set : List ℕ) → contains a (insert_all xs set) ≡ contains a xs || contains a set
unfolding contains insert_all
contains-insert_all a [] set = refl
contains-insert_all a (x ∷ xs) set = elim (Bool-cases (contains x set)) [
  | inl h ↦ elim (Bool-cases (x == a)) [
    | inl e ↦
        let k : contains a set ≡ true = ap (λ b. contains b set) (sym (==_true x a e)) ∙ h in
        rw (h, contains-insert_all a xs set, k, e) (ground arith)
    | inr e ↦ rw (h, contains-insert_all a xs set, e)
  ]
  | inr h ↦ rw (h, contains-insert_all a xs (x ∷ set)) (ground arith)
]

pub contains-select :
    (p : ℕ → Bool) (a : ℕ) (xs : List ℕ) → contains a (select p xs) ≡ contains a xs && p a
unfolding contains select
contains-select p a [] = refl
contains-select p a (x ∷ xs) = elim (Bool-cases (x == a)) [
  | inl e ↦ let q : p a ≡ p x = ap p (sym (==_true x a e)) in ground (arith, contains-select p a xs)
  | inr e ↦ ground (arith, contains-select p a xs)
]

-- A list is empty exactly if nothing is in it, so lists with the same items are empty together.
is_empty-contains : (x : ℕ) (xs : List ℕ) → contains x xs ≡ true → is_empty xs ≡ false
unfolding contains
is_empty-contains x [] h = cc
is_empty-contains x (y ∷ xs) h = refl

contains_nil : (x : ℕ) → contains x [] ≡ false
unfolding contains
contains_nil x = refl

contains_head : (x : ℕ) (xs : List ℕ) → contains x (x ∷ xs) ≡ true
unfolding contains
contains_head x xs = ground arith

pub same_items :
    (xs ys : List ℕ) → ((a : ℕ) → contains a xs ≡ contains a ys) → is_empty xs ≡ is_empty ys
same_items [] [] h = refl
same_items [] (y ∷ ys) h = cc (h y, contains_head y ys, contains_nil y)
same_items (x ∷ xs) [] h = cc (h x, contains_head x xs, contains_nil x)
same_items (x ∷ xs) (y ∷ ys) h = refl

-- What a loop over matchers gives: nothing, where not each of them picked something that had to, or
-- the set of what the test accepts.
abbrev Holds : Option (List ℕ) → Bool → (ℕ → Bool) → Type 0
Holds none each test = each ≡ false
Holds (some set) each test = (each ≡ true) × ((a : ℕ) → contains a set ≡ test a)

Holds-cong :
    (r : Option (List ℕ)) (each each' : Bool) (test test' : ℕ → Bool)
    → each ≡ each'
    → ((a : ℕ) → test a ≡ test' a)
    → Holds r each test
    → Holds r each' test'
Holds-cong none each each' test test' e f h = sym e ∙ h
Holds-cong (some set) each each' test test' e f h = (sym e ∙ h.0, λ a. h.1 a ∙ f a)

Holds-or_nothing :
    (r : Option (List ℕ)) (each : Bool) (test : ℕ → Bool) (a : ℕ)
    → Holds r each (λ b. test b || contains b [])
    → contains a (or_nothing r) ≡ test a && each
Holds-or_nothing none each test a h = rw (h, contains_nil a) (ground arith)
Holds-or_nothing (some set) each test a h = rw (h.0, h.1 a, contains_nil a) (ground arith)

Holds-merge :
    (all empty each : Bool) (matches : List ℕ) (r : Option (List ℕ)) (test : ℕ → Bool)
    → is_empty matches ≡ empty
    → Holds r (not all || each) test
    → Holds (merge all matches r) (not all || not empty && each) test
Holds-merge true true each matches r test e h = rw e
Holds-merge true false each matches r test e h = rw e h
Holds-merge false empty each matches r test e h = h

module _ {L : Type 0} (accepts : L → ℕ → Bool) (attrs : List ℕ) where
  -- `picks` takes items of `attrs` only.
  mutual
    unfolding picks picks_one

    picks-attrs : (m : Matcher L) (a : ℕ) → picks accepts attrs m a ≡ true → contains a attrs ≡ true
    picks-attrs (leaf l) a h = ground arith
    picks-attrs (multi ms all) a h = picks_one-attrs ms a (ground arith)
    picks-attrs (negated m) a h = ground arith

    picks_one-attrs :
        (ms : Matchers L) (a : ℕ) → picks_one accepts attrs ms a ≡ true → contains a attrs ≡ true
    picks_one-attrs nil a h = cc
    picks_one-attrs (cons m ms) a h = ground (arith, picks-attrs m a, picks_one-attrs ms a)

  select-picks :
      (m : Matcher L) (xs : List ℕ)
      → ((a : ℕ) → contains a xs ≡ picks accepts attrs m a)
      → is_empty xs ≡ is_empty (select (picks accepts attrs m) attrs)
  select-picks m xs h = same_items xs _ λ a.
      let p = picks-attrs m a in
      rw (h a, contains-select (picks accepts attrs m) a attrs) (ground (arith, p))

  mutual
    unfolding run run_each picks picks_one each_picks

    run_lem : (m : Matcher L) (a : ℕ) → contains a (run accepts attrs m) ≡ picks accepts attrs m a
    run_lem (leaf l) a = contains-select (accepts l) a attrs
    run_lem (multi ms all) a =
        Holds-or_nothing _ _ (picks_one accepts attrs ms) a (run_each_lem ms all [])
    run_lem (negated m) a = rw (contains-select _ a attrs, run_lem m a)

    run_each_lem :
        (ms : Matchers L) (all : Bool) (set : List ℕ)
        → Holds
            (run_each accepts attrs ms all set)
            (not all || each_picks accepts attrs ms)
            (λ a. picks_one accepts attrs ms a || contains a set)
    run_each_lem nil all set = (ground arith, λ a. refl)
    run_each_lem (cons m ms) all set =
        let matches = run accepts attrs m in
        Holds-merge all _ _ matches _ _ (select-picks m matches (run_lem m)) (
          Holds-cong _ _ _ _ _ refl
            (λ a. rw (contains-insert_all a matches set, run_lem m a) (ground arith))
            (run_each_lem ms all (insert_all matches set)))

  -- What a matcher returns holds exactly what it picks: for a conjunction what one of its parts
  -- picks, if each of them picks something, for a disjunction what one of its parts picks, and for a
  -- negation the attributes that its part leaves.
  pub run-picks :
      (m : Matcher L) (a : ℕ) → contains a (run accepts attrs m) ≡ picks accepts attrs m a
  run-picks m a = run_lem m a
