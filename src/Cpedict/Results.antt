-- ===== src/Cpedict/Results.antt =====
-- cpedict/lookup.go: what the search finds.
use nvdtools.Prelude.{
  Bool, true, false, not, ◌&&◌, ◌↔◌, Option, none, some, List, [], ◌∷◌, ◌++◌, if◌then◌else◌, ◌≡◌,
  refl, sym, ap, subst, ◌∙◌, Bool-cases, inl, inr,
}
use mathlib.Core.List.{Memᴰ}
use mathlib.Core.List.Memᴰ
use nvdtools.Wfn.Attributes.{Attributes}
use nvdtools.Cpedict.Search.{
  Item, MatchType, no_match, subset, exact, superset, equals, within, covers, replacements_of,
  replacements, resolve, resolve_deprecation, gather, choose, first_equal, search_dict,
}

-- An item of those that pass the test is resolved to the item `x`.
abbrev pub Supplies : List Item → (Item → Bool) → List Item → Item → Type 0
Supplies dict test items x =
    (s : Item) × Memᴰ s items × (test s ≡ true) × Memᴰ x (resolve_deprecation dict s)

abbrev pub covered : Attributes → Item → Bool
covered needle s = covers needle s.name

abbrev pub included : Attributes → Item → Bool
included needle s = not (covers needle s.name) && within needle s.name

picked : List Item → (Item → Bool) → List Item → List Item
picked dict test [] = []
picked dict test (s ∷ items) =
    let rest = picked dict test items in if test s then resolve_deprecation dict s ++ rest else rest

gather-picked :
    (dict : List Item) (needle : Attributes) (items : List Item)
    → gather dict needle items
      ≡ (picked dict (covered needle) items, picked dict (included needle) items)
unfolding gather picked
gather-picked dict needle [] = refl
gather-picked dict needle (s ∷ items) =
    let rest = gather-picked dict needle items in
    elim (Bool-cases (covers needle s.name)) [
      | inl e ↦ rw (rest, e) refl
      | inr e ↦ elim (Bool-cases (within needle s.name)) [
        | inl f ↦ rw (rest, e, f) refl
        | inr f ↦ rw (rest, e, f) refl
      ]
    ]

picked-Supplies :
    (dict : List Item) (test : Item → Bool) (items : List Item) (x : Item)
    → Memᴰ x (picked dict test items)
    → Supplies dict test items x
unfolding picked
picked-Supplies dict test [] x m = absurd (Memᴰ.not-nil m)
picked-Supplies dict test (s ∷ items) x m = elim (Bool-cases (test s)) [
  | inl e ↦ elim (Memᴰ.append_cases (resolve_deprecation dict s) (rw e at m)) [
    | inl here ↦ (s, Memᴰ.head refl, e, here)
    | inr later ↦
        let (t, n, f, r) = picked-Supplies dict test items x later in (t, Memᴰ.tail n, f, r)
  ]
  | inr e ↦
      let (t, n, f, r) = picked-Supplies dict test items x (rw e at m) in (t, Memᴰ.tail n, f, r)
]

Supplies-picked :
    (dict : List Item) (test : Item → Bool) (items : List Item) (s x : Item)
    → Memᴰ s items
    → test s ≡ true
    → Memᴰ x (resolve_deprecation dict s)
    → Memᴰ x (picked dict test items)
unfolding picked
Supplies-picked dict test [] s x m p r = absurd (Memᴰ.not-nil m)
Supplies-picked dict test (t ∷ items) s x (Memᴰ.head e) p r =
    let same : test t ≡ true = ap test (sym e) ∙ p in
    let here : Memᴰ x (resolve_deprecation dict t) =
      subst (λ y. Memᴰ x (resolve_deprecation dict y)) e r in
    rw same (Memᴰ.append_left (picked dict test items) here)
Supplies-picked dict test (t ∷ items) s x (Memᴰ.tail m) p r =
    let later = Supplies-picked dict test items s x m p r in
    elim (Bool-cases (test t)) [
      | inl e ↦ rw e (Memᴰ.append_right (resolve_deprecation dict t) later)
      | inr e ↦ rw e later
    ]

abbrev pub Picked : List Item → (Item → Bool) → List Item → Type 0
Picked dict test xs = (x : Item) → Memᴰ x xs ↔ Supplies dict test dict x

-- What a search that is not exact may answer.
abbrev pub Answers : List Item → Attributes → List Item × MatchType → Type 0
Answers dict needle (xs, superset) = Picked dict (covered needle) xs × ((x : Item) × Memᴰ x xs)
Answers dict needle (xs, subset) =
    Picked dict (covered needle) [] × Picked dict (included needle) xs × ((x : Item) × Memᴰ x xs)
Answers dict needle (xs, no_match) =
    Picked dict (covered needle) [] × Picked dict (included needle) [] × (xs ≡ [])
Answers dict needle (xs, exact) = ⊥

choose-Answers :
    (dict : List Item) (needle : Attributes) (xs ys : List Item)
    → Picked dict (covered needle) xs
    → Picked dict (included needle) ys
    → Answers dict needle (choose (xs, ys))
choose-Answers dict needle (x ∷ xs) ys a b = (a, (x, Memᴰ.head refl))
choose-Answers dict needle [] (y ∷ ys) a b = (a, b, (y, Memᴰ.head refl))
choose-Answers dict needle [] [] a b = (a, b, refl)

picked_lem : (dict : List Item) (test : Item → Bool) → Picked dict test (picked dict test dict)
picked_lem dict test x = (
  λ m. picked-Supplies dict test dict x m,
  λ (s, m, p, r). Supplies-picked dict test dict s x m p r,
)

-- A search that is not exact returns what the items that the needle covers are resolved to, as a
-- superset, unless that is nothing; then what the other items that lie within the needle are resolved
-- to, as a subset, unless that is nothing; and else no item.
pub search_dict-Answers :
    (dict : List Item) (needle : Attributes) → Answers dict needle (search_dict dict needle false)
unfolding search_dict
search_dict-Answers dict needle = rw (gather-picked dict needle dict) (
    choose-Answers dict needle (picked dict (covered needle) dict)
      (picked dict (included needle) dict) (picked_lem dict (covered needle))
      (picked_lem dict (included needle)))

replacements_of-same :
    (i : Item) (names : List Attributes) (x : Item) → Memᴰ x (replacements_of i names) → x ≡ i
unfolding replacements_of
replacements_of-same i [] x m = absurd (Memᴰ.not-nil m)
replacements_of-same i (name ∷ names) x m = elim (Bool-cases (equals name i.name)) [
  | inl e ↦ elim (Memᴰ.cases_cons (rw e at m)) [
    | inl same ↦ same
    | inr later ↦ replacements_of-same i names x later
  ]
  | inr e ↦ replacements_of-same i names x (rw e at m)
]

replacements-listed :
    (items : List Item) (names : List Attributes) (x : Item)
    → Memᴰ x (replacements items names)
    → Memᴰ x items
replacements-listed [] names x m = absurd (Memᴰ.not-nil m)
replacements-listed (i ∷ items) names x m = elim (Memᴰ.append_cases (replacements_of i names) m) [
  | inl here ↦ Memᴰ.head (replacements_of-same i names x here)
  | inr later ↦ Memᴰ.tail (replacements-listed items names x later)
]

resolve-listed :
    (dict : List Item) (s x : Item) (o : Option (List Attributes))
    → Memᴰ s dict
    → Memᴰ x (resolve dict s o)
    → Memᴰ x dict
resolve-listed dict s x none m n = Memᴰ.cast (Memᴰ.eq_of_singleton n) m
resolve-listed dict s x (some names) m n = chosen s.deprecated n
  where
    chosen : (b : Bool) → Memᴰ x (if not b then s ∷ [] else replacements dict names) → Memᴰ x dict
    chosen true n = replacements-listed dict names x n
    chosen false n = Memᴰ.cast (Memᴰ.eq_of_singleton n) m

Supplies-listed :
    (dict : List Item) (test : Item → Bool) (x : Item) → Supplies dict test dict x → Memᴰ x dict
unfolding resolve_deprecation
Supplies-listed dict test x (s, m, p, r) = resolve-listed dict s x s.deprecated_by m r

Answers-listed :
    (dict : List Item) (needle : Attributes) (found : List Item × MatchType) (x : Item)
    → Answers dict needle found
    → Memᴰ x found.0
    → Memᴰ x dict
Answers-listed dict needle (xs, superset) x (a, b) m =
    Supplies-listed dict (covered needle) x ((a x).0 m)
Answers-listed dict needle (xs, subset) x (a, b, c) m =
    Supplies-listed dict (included needle) x ((b x).0 m)
Answers-listed dict needle (xs, no_match) x (a, b, c) m = absurd (Memᴰ.not-nil (subst (Memᴰ x) c m))
Answers-listed dict needle (xs, exact) x a m = absurd a

first_equal-listed :
    (needle : Attributes) (items : List Item) (x : Item)
    → Memᴰ x (first_equal needle items).0
    → Memᴰ x items
unfolding first_equal
first_equal-listed needle [] x m = m
first_equal-listed needle (item ∷ items) x m = elim (Bool-cases (equals needle item.name)) [
  | inl e ↦ Memᴰ.head (Memᴰ.eq_of_singleton (rw e at m))
  | inr e ↦ Memᴰ.tail (first_equal-listed needle items x (rw e at m))
]

-- Exact or not, a search returns items of the dictionary only.
pub search_dict-listed :
    (dict : List Item) (needle : Attributes) (is_exact : Bool) (x : Item)
    → Memᴰ x (search_dict dict needle is_exact).0
    → Memᴰ x dict
search_dict-listed dict needle true x m = first_equal-listed needle dict x (unfold search_dict in m)
search_dict-listed dict needle false x m =
    Answers-listed dict needle (search_dict dict needle false) x (search_dict-Answers dict needle) m
