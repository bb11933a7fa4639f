-- ===== src/Feed/Index.antt =====
-- cvefeed/cvecache.go: the index from products to entries, and the dictionary that it gives for names.
--
-- An entry is a pointer, a number; `config` is its method `Config`. A dictionary is the list of its
-- entries, in the order in which Go visits the map: its keys are the distinct ids of the entries.
use nvdtools.Prelude.{
  ℕ, Bool, false, ◌||◌, Option, none, some, List, [], ◌∷◌, ◌++◌, Bytes, if◌then◌else◌, text_eq,
}
use nvdtools.Wfn.Attributes.{Attributes, any}
use nvdtools.Wfn.Wildcard.{has_wildcard}
use nvdtools.Wfn.Matcher.{insert_all}

-- `Index`. A missing key gives no entries.
abbrev pub Index : Type 0
Index = Bytes → List ℕ

unfoldable pub contains_text : Bytes → List Bytes → Bool
unfolding text_eq
contains_text s [] = false
contains_text s (t ∷ ts) = text_eq t s || contains_text s ts

-- The key of a product: ANY for one with wildcards.
abbrev pub index_key : Bytes → Bytes
index_key product = if has_wildcard product then any else product

-- `idx[product] = append(idx[product], entry)`
abbrev pub append_entry : Bool → Index → Bytes → ℕ → Index
append_entry known idx product entry key =
    if known then idx key else if text_eq product key then idx key ++ entry ∷ [] else idx key

-- The loop over the names of an entry, with the products seen. A name that is nil is skipped.
unfoldable pub index_entry : ℕ → List (Option Attributes) → List Bytes → Index → Index
unfolding contains_text has_wildcard
index_entry entry [] seen idx = idx
index_entry entry (none ∷ cpes) seen idx = index_entry entry cpes seen idx
index_entry entry (some cpe ∷ cpes) seen idx =
    let product = index_key cpe.product in
    let known = contains_text product seen in
    index_entry entry cpes (if known then seen else product ∷ seen)
      (append_entry known idx product entry)

module _ (config : ℕ → List (Option Attributes)) where
  unfoldable pub index_entries : List ℕ → Index → Index
  unfolding index_entry
  index_entries [] idx = idx
  index_entries (entry ∷ entries) idx =
      index_entries entries (index_entry entry (config entry) [] idx)

  abbrev pub empty_index : Index
  empty_index key = []

  -- `NewIndex`
  abbrev pub new_index : List ℕ → Index
  new_index entries = index_entries entries empty_index

-- The loop over the names, with the entries that are known; `none` is the early return of the whole
-- dictionary.
unfoldable pub collect : Index → List (Option Attributes) → List ℕ → Option (List ℕ)
unfolding insert_all text_eq
collect idx [] known = some known
collect idx (none ∷ cpes) known = collect idx cpes known
collect idx (some cpe ∷ cpes) known =
    let rest = collect idx cpes (insert_all (idx cpe.product) known) in
    if text_eq cpe.product any then none else rest

abbrev pub add_any : Index → List ℕ → Option (List ℕ) → List ℕ
add_any idx dict none = dict
add_any idx dict (some known) = insert_all (idx any) known

-- `dictFromIndex`, for a cache that has an index.
unfoldable pub dict_from_index : Index → List ℕ → List (Option Attributes) → List ℕ
unfolding collect
dict_from_index idx dict cpes = add_any idx dict (collect idx cpes [])
