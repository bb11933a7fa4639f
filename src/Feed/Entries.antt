-- ===== src/Feed/Entries.antt =====
-- cvefeed/cvecache.go: what the index over the entries of a feed holds.
use nvdtools.Prelude.{
  ℕ, Bool, true, false, ◌||◌, Option, none, some, List, [], ◌∷◌, ◌++◌, Bytes, if◌then◌else◌,
  text_eq, text_eq_refl, ◌≡◌, refl, arith, sym, subst, ◌⊎◌, inl, inr, Bool-cases, ◌==◌, ==_refl,
}
use nvdtools.Wfn.Attributes.{Attributes}
use nvdtools.Wfn.Matcher.{contains}
use nvdtools.Feed.Index.{Index, contains_text, index_key, append_entry, index_entry, index_entries}

-- A name is one of a list.
abbrev pub Listed : Attributes → List (Option Attributes) → Type 0
Listed a [] = ⊥
Listed a (none ∷ cpes) = Listed a cpes
Listed a (some b ∷ cpes) = (b ≡ a) ⊎ Listed a cpes

pub contains-snoc : (a b : ℕ) (xs : List ℕ) → contains a (xs ++ b ∷ []) ≡ contains a xs || b == a
unfolding contains
contains-snoc a b [] = ground arith
contains-snoc a b (x ∷ xs) = ground (arith, contains-snoc a b xs)

-- Entries of the index stay there.
append_entry-kept :
    (known : Bool) (idx : Index) (product : Bytes) (entry e : ℕ) (key : Bytes)
    → contains e (idx key) ≡ true
    → contains e (append_entry known idx product entry key) ≡ true
append_entry-kept true idx product entry e key h = h
append_entry-kept false idx product entry e key h = elim (Bool-cases (text_eq product key)) [
  | inl k ↦ rw (k, contains-snoc e entry (idx key), h)
  | inr k ↦ rw (k, h)
]

index_entry-kept :
    (entry : ℕ) (cpes : List (Option Attributes)) (seen : List Bytes) (idx : Index) (e : ℕ)
    (key : Bytes)
    → contains e (idx key) ≡ true
    → contains e (index_entry entry cpes seen idx key) ≡ true
unfolding index_entry
index_entry-kept entry [] seen idx e key h = h
index_entry-kept entry (none ∷ cpes) seen idx e key h = index_entry-kept entry cpes seen idx e key h
index_entry-kept entry (some cpe ∷ cpes) seen idx e key h =
    let product = index_key cpe.product in
    let known = contains_text product seen in
    index_entry-kept entry cpes (if known then seen else product ∷ seen)
      (append_entry known idx product entry) e key
      (append_entry-kept known idx product entry e key h)

-- The products that were seen have the entry.
abbrev Seen : ℕ → List Bytes → Index → Type 0
Seen entry seen idx =
    (key : Bytes) → contains_text key seen ≡ true → contains entry (idx key) ≡ true

append_entry-Seen :
    (known : Bool) (entry : ℕ) (product : Bytes) (seen : List Bytes) (idx : Index)
    → contains_text product seen ≡ known
    → Seen entry seen idx
    → Seen entry (if known then seen else product ∷ seen) (append_entry known idx product entry)
unfolding contains_text
append_entry-Seen true entry product seen idx e h key k = h key k
append_entry-Seen false entry product seen idx e h key k = elim (Bool-cases (text_eq product key)) [
  | inl p ↦ rw (p, contains-snoc entry entry (idx key), ==_refl entry) (ground arith)
  | inr p ↦ rw (p) (h key (ground arith))
]

append_entry-product :
    (known : Bool) (entry : ℕ) (product : Bytes) (seen : List Bytes) (idx : Index)
    → contains_text product seen ≡ known
    → Seen entry seen idx
    → contains entry (append_entry known idx product entry product) ≡ true
append_entry-product true entry product seen idx e h = h product e
append_entry-product false entry product seen idx e h =
    rw (text_eq_refl product, contains-snoc entry entry (idx product), ==_refl entry) (ground arith)

index_entry-Listed :
    (entry : ℕ) (cpes : List (Option Attributes)) (seen : List Bytes) (idx : Index)
    (cpe : Attributes)
    → Seen entry seen idx
    → Listed cpe cpes
    → contains entry (index_entry entry cpes seen idx (index_key cpe.product)) ≡ true
unfolding index_entry
index_entry-Listed entry [] seen idx cpe h k = absurd k
index_entry-Listed entry (none ∷ cpes) seen idx cpe h k =
    index_entry-Listed entry cpes seen idx cpe h k
index_entry-Listed entry (some c ∷ cpes) seen idx cpe h (inl k) =
    let product = index_key c.product in
    let known = contains_text product seen in
    rw (sym k) (
      index_entry-kept entry cpes (if known then seen else product ∷ seen)
        (append_entry known idx product entry) entry product
        (append_entry-product known entry product seen idx refl h))
index_entry-Listed entry (some c ∷ cpes) seen idx cpe h (inr k) =
    let product = index_key c.product in
    let known = contains_text product seen in
    index_entry-Listed entry cpes (if known then seen else product ∷ seen)
      (append_entry known idx product entry) cpe
      (append_entry-Seen known entry product seen idx refl h) k

module _ (config : ℕ → List (Option Attributes)) where
  index_entries-kept :
      (entries : List ℕ) (idx : Index) (e : ℕ) (key : Bytes)
      → contains e (idx key) ≡ true
      → contains e (index_entries config entries idx key) ≡ true
  unfolding index_entries
  index_entries-kept [] idx e key h = h
  index_entries-kept (entry ∷ entries) idx e key h =
      index_entries-kept entries (index_entry entry (config entry) [] idx) e key
        (index_entry-kept entry (config entry) [] idx e key h)

  pub index_entries-Listed :
      (entries : List ℕ) (idx : Index) (e : ℕ) (cpe : Attributes)
      → contains e entries ≡ true
      → Listed cpe (config e)
      → contains e (index_entries config entries idx (index_key cpe.product)) ≡ true
  unfolding index_entries contains contains_text
  index_entries-Listed [] idx e cpe h k = cc
  index_entries-Listed (entry ∷ entries) idx e cpe h k = elim (Bool-cases (entry == e)) [
    | inl p ↦
        let q : e ≡ entry = ground arith in
        index_entries-kept entries (index_entry entry (config entry) [] idx) e
          (index_key cpe.product)
          (rw q (
            index_entry-Listed entry (config entry) [] idx cpe (λ key c. cc)
              (subst (λ x. Listed cpe (config x)) q k)))
    | inr p ↦
        index_entries-Listed entries (index_entry entry (config entry) [] idx) e cpe (ground arith)
          k
  ]
