-- ===== src/Feed/Origin.antt =====
-- cvefeed/cvecache.go: the index brings in no entry that is not in the dictionary.
use nvdtools.Prelude.{
  ℕ, Bool, true, false, ◌||◌, Option, none, some, List, [], ◌∷◌, ◌++◌, Bytes, if◌then◌else◌,
  text_eq, ◌≡◌, arith, ◌⊎◌, inl, inr, Bool-cases, ◌==◌,
}
use nvdtools.Wfn.Attributes.{Attributes, any}
use nvdtools.Wfn.Matcher.{contains, insert_all}
use nvdtools.Wfn.Picks.{contains-insert_all}
use nvdtools.Feed.Index.{
  Index, contains_text, index_key, append_entry, index_entry, index_entries, new_index, empty_index,
  collect, add_any, dict_from_index,
}
use nvdtools.Feed.Entries.{contains-snoc}

append_entry-origin :
    (known : Bool) (idx : Index) (product : Bytes) (entry e : ℕ) (key : Bytes)
    → contains e (append_entry known idx product entry key) ≡ true
    → contains e (idx key) || entry == e ≡ true
append_entry-origin true idx product entry e key h = rw h
append_entry-origin false idx product entry e key h = elim (Bool-cases (text_eq product key)) [
  | inl k ↦
      let t : append_entry false idx product entry key ≡ idx key ++ entry ∷ [] = rw k in
      ground (arith, h, t, contains-snoc e entry (idx key))
  | inr k ↦
      let t : append_entry false idx product entry key ≡ idx key = rw k in ground (arith, h, t)
]

index_entry-origin :
    (entry : ℕ) (cpes : List (Option Attributes)) (seen : List Bytes) (idx : Index) (e : ℕ)
    (key : Bytes)
    → contains e (index_entry entry cpes seen idx key) ≡ true
    → contains e (idx key) || entry == e ≡ true
unfolding index_entry
index_entry-origin entry [] seen idx e key h = rw h
index_entry-origin entry (none ∷ cpes) seen idx e key h =
    index_entry-origin entry cpes seen idx e key h
index_entry-origin entry (some cpe ∷ cpes) seen idx e key h =
    let product = index_key cpe.product in
    let known = contains_text product seen in
    let now = append_entry known idx product entry in
    let t : contains e (now key) || entry == e ≡ true =
      index_entry-origin entry cpes (if known then seen else product ∷ seen) now e key h in
    let f = append_entry-origin known idx product entry e key in
    elim (Bool-cases (contains e (now key))) [ inl a ↦ f a | inr a ↦ ground (arith, t) ]

add_any-if :
    (whole : Bool) (idx : Index) (dict : List ℕ) (rest : Option (List ℕ)) (e : ℕ)
    → contains e (add_any idx dict (if whole then none else rest)) ≡ true
    → (contains e dict ≡ true) ⊎ (contains e (add_any idx dict rest) ≡ true)
add_any-if true idx dict rest e h = inl h
add_any-if false idx dict rest e h = inr h

insert_all-origin :
    (dict xs known : List ℕ) (e : ℕ)
    → (contains e xs ≡ true → contains e dict ≡ true)
    → (contains e known ≡ true → contains e dict ≡ true)
    → contains e (insert_all xs known) ≡ true
    → contains e dict ≡ true
insert_all-origin dict xs known e f g h = elim (Bool-cases (contains e known)) [
  | inl a ↦ g a
  | inr a ↦ f (ground (arith, h, contains-insert_all e xs known))
]

collect-origin :
    (idx : Index) (cpes : List (Option Attributes)) (known dict : List ℕ) (e : ℕ)
    → ((key : Bytes) → contains e (idx key) ≡ true → contains e dict ≡ true)
    → (contains e known ≡ true → contains e dict ≡ true)
    → contains e (add_any idx dict (collect idx cpes known)) ≡ true
    → contains e dict ≡ true
unfolding collect
collect-origin idx [] known dict e f g h = insert_all-origin dict (idx any) known e (f any) g h
collect-origin idx (none ∷ cpes) known dict e f g h = collect-origin idx cpes known dict e f g h
collect-origin idx (some cpe ∷ cpes) known dict e f g h =
    let now = insert_all (idx cpe.product) known in
    elim (add_any-if (text_eq cpe.product any) idx dict (collect idx cpes now) e h) [
      | inl a ↦ a
      | inr a ↦
          collect-origin idx cpes now dict e f
            (insert_all-origin dict (idx cpe.product) known e (f cpe.product) g) a
    ]

module _ (config : ℕ → List (Option Attributes)) where
  index_entries-origin :
      (entries : List ℕ) (idx : Index) (e : ℕ) (key : Bytes)
      → contains e (index_entries config entries idx key) ≡ true
      → contains e (idx key) || contains e entries ≡ true
  unfolding index_entries contains
  index_entries-origin [] idx e key h = ground (arith, h)
  index_entries-origin (entry ∷ entries) idx e key h =
      let now = index_entry entry (config entry) [] idx in
      let t = index_entries-origin entries now e key h in
      let f = index_entry-origin entry (config entry) [] idx e key in
      elim (Bool-cases (contains e (now key))) [
        | inl a ↦ ground (arith, f a)
        | inr a ↦ ground (arith, t)
      ]

  -- The index brings in no entry that is not in the dictionary.
  pub dict_from_index-origin :
      (entries : List ℕ) (cpes : List (Option Attributes)) (e : ℕ)
      → contains e (dict_from_index (new_index config entries) entries cpes) ≡ true
      → contains e entries ≡ true
  unfolding dict_from_index contains
  dict_from_index-origin entries cpes e h =
      collect-origin (new_index config entries) cpes [] entries e
        (λ key k. index_entries-origin entries (empty_index config) e key k) (λ k. cc) h
