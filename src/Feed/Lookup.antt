-- ===== src/Feed/Lookup.antt =====
-- cvefeed/cvecache.go: the index loses no entry of the dictionary.
use nvdtools.Prelude.{
  ℕ, true, Option, none, some, List, [], ◌∷◌, text_eq, text_eq_iff, ◌≡◌, refl, arith, sym, ap, ◌∙◌,
  ◌⊎◌, inl, inr, Bool-cases,
}
use nvdtools.Wfn.Attributes.{Attributes, any}
use nvdtools.Wfn.Matcher.{contains, insert_all}
use nvdtools.Wfn.Picks.{contains-insert_all}
use nvdtools.Feed.Index.{
  Index, index_key, new_index, empty_index, collect, add_any, dict_from_index,
}
use nvdtools.Feed.Entries.{Listed, index_entries-Listed}

-- When a name of an entry and a name of a query may have to do with each other: one of the products
-- is ANY, the product of the entry has wildcards, or the products are equal.
abbrev pub Reaches : Attributes → Attributes → Type 0
Reaches cpe name =
    (name.product ≡ any) ⊎ (index_key cpe.product ≡ any) ⊎ (index_key cpe.product ≡ name.product)

-- What the names of a query bring in.
collect-known :
    (idx : Index) (cpes : List (Option Attributes)) (known : List ℕ) (dict : List ℕ) (e : ℕ)
    → contains e known ≡ true
    → contains e dict ≡ true
    → contains e (add_any idx dict (collect idx cpes known)) ≡ true
unfolding collect
collect-known idx [] known dict e h k = rw (contains-insert_all e (idx any) known, h) (ground arith)
collect-known idx (none ∷ cpes) known dict e h k = collect-known idx cpes known dict e h k
collect-known idx (some cpe ∷ cpes) known dict e h k = elim (Bool-cases (text_eq cpe.product any)) [
  | inl p ↦ rw (p, k)
  | inr p ↦ rw p (
      collect-known idx cpes (insert_all (idx cpe.product) known) dict e
        (rw (contains-insert_all e (idx cpe.product) known, h) (ground arith)) k)
]

collect-any :
    (idx : Index) (cpes : List (Option Attributes)) (known : List ℕ) (dict : List ℕ) (e : ℕ)
    → contains e (idx any) ≡ true
    → contains e dict ≡ true
    → contains e (add_any idx dict (collect idx cpes known)) ≡ true
unfolding collect
collect-any idx [] known dict e h k = rw (contains-insert_all e (idx any) known, h) (ground arith)
collect-any idx (none ∷ cpes) known dict e h k = collect-any idx cpes known dict e h k
collect-any idx (some cpe ∷ cpes) known dict e h k = elim (Bool-cases (text_eq cpe.product any)) [
  | inl p ↦ rw (p, k)
  | inr p ↦ rw p (collect-any idx cpes (insert_all (idx cpe.product) known) dict e h k)
]

collect-Listed :
    (idx : Index) (cpes : List (Option Attributes)) (known : List ℕ) (dict : List ℕ) (e : ℕ)
    (name : Attributes)
    → Listed name cpes
    → (name.product ≡ any) ⊎ (contains e (idx name.product) ≡ true)
    → contains e dict ≡ true
    → contains e (add_any idx dict (collect idx cpes known)) ≡ true
unfolding collect
collect-Listed idx [] known dict e name l h k = absurd l
collect-Listed idx (none ∷ cpes) known dict e name l h k =
    collect-Listed idx cpes known dict e name l h k
collect-Listed idx (some cpe ∷ cpes) known dict e name l h k =
    elim (Bool-cases (text_eq cpe.product any)) [
      | inl p ↦ rw (p, k)
      | inr p ↦ rw p (elim l [
        | inl q ↦ elim h [
          | inl r ↦
              let t : text_eq cpe.product any ≡ true =
                (text_eq_iff cpe.product any).1 (ap (λ n. n.product) q ∙ r) in
              cc
          | inr r ↦
              collect-known idx cpes (insert_all (idx cpe.product) known) dict e
                (rw (contains-insert_all e (idx cpe.product) known, q, r) refl) k
        ]
        | inr q ↦ collect-Listed idx cpes (insert_all (idx cpe.product) known) dict e name q h k
      ])
    ]

module _ (config : ℕ → List (Option Attributes)) where
  -- The index loses no entry: an entry of the dictionary that lists a name which reaches a name of the
  -- query is in the dictionary that the index gives for the query.
  pub dict_from_index-Reaches :
      (entries : List ℕ) (cpes : List (Option Attributes)) (e : ℕ) (cpe name : Attributes)
      → contains e entries ≡ true
      → Listed cpe (config e)
      → Listed name cpes
      → Reaches cpe name
      → contains e (dict_from_index (new_index config entries) entries cpes) ≡ true
  unfolding dict_from_index
  dict_from_index-Reaches entries cpes e cpe name h k l (inl r) =
      collect-Listed (new_index config entries) cpes [] entries e name l (inl r) h
  dict_from_index-Reaches entries cpes e cpe name h k l (inr (inl r)) =
      collect-any (new_index config entries) cpes [] entries e
        (rw (sym r) (index_entries-Listed config entries (empty_index config) e cpe h k)) h
  dict_from_index-Reaches entries cpes e cpe name h k l (inr (inr r)) =
      collect-Listed (new_index config entries) cpes [] entries e name l
        (inr (rw (sym r) (index_entries-Listed config entries (empty_index config) e cpe h k))) h
