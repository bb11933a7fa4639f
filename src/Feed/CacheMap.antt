-- ===== src/Feed/CacheMap.antt =====
-- cvefeed/cvecache.go: the map of the cache, and the sums over the entries that are ready.
use nvdtools.Prelude.{
  ℕ, ◌+◌, ◌≤◌, ◌<◌, true, false, Option, none, some, List, [], ◌∷◌, Bytes, length, if◌then◌else◌,
  text_eq, text_eq_iff, ◌≡◌, refl, sym, ap, subst, ◌∙◌, arith, Bool-cases, inl, inr, ◌⊎◌,
}
use mathlib.Core.Option
use nvdtools.Feed.Cache.{Entry, lookup, erase, assign}

-- 1 for a key and 0 for the others.
abbrev pub one_if : Bytes → Bytes → ℕ
one_if k j = if text_eq j k then 1 else 0

text_eq_sym : (i k : Bytes) → text_eq i k ≡ text_eq k i
text_eq_sym i k = elim (Bool-cases (text_eq i k)) [
  | inl q ↦ q ∙ sym ((text_eq_iff k i).1 (sym ((text_eq_iff i k).0 q)))
  | inr q ↦ elim (Bool-cases (text_eq k i)) [
    | inl p ↦ (text_eq_iff i k).1 (sym ((text_eq_iff k i).0 p)) ∙ sym p
    | inr p ↦ q ∙ sym p
  ]
]

module _ {R : Type 0} where
  -- No key occurs twice.
  abbrev pub Distinct : List (Bytes × Entry R) → Type 0
  Distinct [] = Unit
  Distinct ((k, e) ∷ es) = (lookup k es ≡ none) × Distinct es

  -- The sums over the entries that are ready.
  abbrev pub ready_weight : (Bytes → ℕ) → List (Bytes × Entry R) → ℕ
  ready_weight f [] = 0
  ready_weight f ((k, e) ∷ es) = (if e.ready then f k else 0) + ready_weight f es

  abbrev pub ready_size : List (Bytes × Entry R) → ℕ
  ready_size [] = 0
  ready_size ((k, e) ∷ es) = (if e.ready then e.size else 0) + ready_size es

  pub ready_weight-length : (es : List (Bytes × Entry R)) → ready_weight (λ k. 1) es ≤ length es
  ready_weight-length [] = omega arith
  ready_weight-length ((k, e) ∷ es) = ground (arith, ready_weight-length es)

  pub ready_size-none :
      (es : List (Bytes × Entry R)) → ready_weight (λ k. 1) es ≡ 0 → ready_size es ≡ 0
  ready_size-none [] h = refl
  ready_size-none ((k, e) ∷ es) h = ground (arith, ready_size-none es)

  absent-weight :
      (k : Bytes) (es : List (Bytes × Entry R))
      → lookup k es ≡ none
      → ready_weight (one_if k) es ≡ 0
  absent-weight k [] h = refl
  absent-weight k ((j, e) ∷ es) h = ground (arith, absent-weight k es)

  -- A key that a sum over the entries counts is there and ready.
  pub lookup-counted :
      (k : Bytes) (es : List (Bytes × Entry R))
      → Distinct es
      → 0 < ready_weight (one_if k) es
      → (e : Entry R) × (lookup k es ≡ some e) × (e.ready ≡ true)
  lookup-counted k [] d h = absurd (omega arith)
  lookup-counted k ((j, e) ∷ es) (n, d) h = elim (Bool-cases (text_eq j k)) [
    | inl q ↦
        let same : lookup k es ≡ none = subst (λ x. lookup x es ≡ none) ((text_eq_iff j k).0 q) n in
        (e, rw q, ground (arith, absent-weight k es same))
    | inr q ↦ let (e', l, r) = lookup-counted k es d (ground arith) in (e', rw q l, r)
  ]

  erase-absent : (k : Bytes) (es : List (Bytes × Entry R)) → lookup k es ≡ none → erase k es ≡ es
  erase-absent k [] h = refl
  erase-absent k ((j, e) ∷ es) h = ground (arith, erase-absent k es)

  pub erase-sums :
      (k : Bytes) (es : List (Bytes × Entry R)) (e : Entry R) (f : Bytes → ℕ)
      → Distinct es
      → lookup k es ≡ some e
      → e.ready ≡ true
      → (ready_weight f (erase k es) + f k ≡ ready_weight f es)
        × (ready_size (erase k es) + e.size ≡ ready_size es)
  erase-sums k [] e f d h r = cc
  erase-sums k ((j, e') ∷ es) e f (n, d) h r = elim (Bool-cases (text_eq j k)) [
    | inl q ↦
        let p : j ≡ k = (text_eq_iff j k).0 q in
        let same : lookup k es ≡ none = subst (λ x. lookup x es ≡ none) p n in
        let w : e' ≡ e = ground arith in
        rw (q, erase-absent k es same, w, r, p) (omega arith, omega arith)
    | inr q ↦ let (a, b) = erase-sums k es e f d (rw q at h) r in rw q (omega arith, omega arith)
  ]

  -- Reading after a deletion.
  pub lookup-erase :
      (j k : Bytes) (es : List (Bytes × Entry R))
      → lookup j (erase k es) ≡ (if text_eq k j then none else lookup j es)
  lookup-erase j k [] = ground arith
  lookup-erase j k ((i, e) ∷ es) = elim (Bool-cases (text_eq i k)) [
    | inl q ↦
        let same : text_eq i j ≡ text_eq k j = ap (λ x. text_eq x j) ((text_eq_iff i k).0 q) in
        rw (q, lookup-erase j k es, same) (ground arith)
    | inr q ↦ elim (Bool-cases (text_eq k j)) [
      | inl p ↦
          let other : text_eq i j ≡ false = ap (text_eq i) (sym ((text_eq_iff k j).0 p)) ∙ q in
          ground (arith, lookup-erase j k es)
      | inr p ↦ ground (arith, lookup-erase j k es)
    ]
  ]

  pub erase-Distinct :
      (k : Bytes) (es : List (Bytes × Entry R)) → Distinct es → Distinct (erase k es)
  erase-Distinct k [] d = tt
  erase-Distinct k ((j, e) ∷ es) (n, d) = elim (Bool-cases (text_eq j k)) [
    | inl q ↦ rw q (erase-Distinct k es d)
    | inr q ↦ rw q (ground (arith, lookup-erase j k es, n), erase-Distinct k es d)
  ]

  -- Reading after a write.
  pub lookup-assign :
      (j k : Bytes) (f : Entry R → Entry R) (es : List (Bytes × Entry R))
      → lookup j (assign k f es) ≡ (if text_eq k j then Option.map f (lookup j es) else lookup j es)
  lookup-assign j k f [] = ground arith
  lookup-assign j k f ((i, e) ∷ es) = elim (Bool-cases (text_eq i j)) [
    | inl q ↦
        let same : text_eq i k ≡ text_eq k j =
          text_eq_sym i k ∙ ap (text_eq k) ((text_eq_iff i j).0 q) in
        rw (q, same) (elim (Bool-cases (text_eq k j)) [ inl p ↦ rw p refl | inr p ↦ rw p refl ])
    | inr q ↦ rw q (lookup-assign j k f es)
  ]

  pub assign-Distinct :
      (k : Bytes) (f : Entry R → Entry R) (es : List (Bytes × Entry R))
      → Distinct es
      → Distinct (assign k f es)
  assign-Distinct k f [] d = tt
  assign-Distinct k f ((j, e) ∷ es) (n, d) =
      (rw (lookup-assign j k f es, n) (ground arith), assign-Distinct k f es d)

  -- A write to an entry that is not there, or one that keeps what the sums read.
  absent-sums :
      (k : Bytes) (f : Bytes → ℕ) (g : Entry R → Entry R) (es : List (Bytes × Entry R))
      → lookup k es ≡ none
      → (ready_weight f (assign k g es) ≡ ready_weight f es)
        × (ready_size (assign k g es) ≡ ready_size es)
  absent-sums k f g [] h = (refl, refl)
  absent-sums k f g ((j, e) ∷ es) h = elim (Bool-cases (text_eq j k)) [
    | inl q ↦ let absurd_here : some e ≡ none = rw q at h in cc
    | inr q ↦ let (a, b) = absent-sums k f g es (rw q at h) in rw (q, a, b) (refl, refl)
  ]

  -- The sums when the entry of a key that waits becomes ready.
  pub ready-sums :
      (k : Bytes) (f : Bytes → ℕ) (e' : Entry R) (es : List (Bytes × Entry R)) (e : Entry R)
      → Distinct es
      → lookup k es ≡ some e
      → e.ready ≡ false
      → e'.ready ≡ true
      → (ready_weight f (assign k (λ x. e') es) ≡ ready_weight f es + f k)
        × (ready_size (assign k (λ x. e') es) ≡ ready_size es + e'.size)
  ready-sums k f e' [] e d l r r' = cc
  ready-sums k f e' ((j, e0) ∷ es) e (n, d) l r r' = elim (Bool-cases (text_eq j k)) [
    | inl q ↦
        let p : j ≡ k = (text_eq_iff j k).0 q in
        let (a, b) = absent-sums k f (λ x. e') es (subst (λ x. lookup x es ≡ none) p n) in
        let w : e0 ≡ e = ground arith in rw (q, r', w, r, a, b, p) (omega arith, omega arith)
    | inr q ↦
        let (a, b) = ready-sums k f e' es e d (rw q at l) r r' in
        rw (q, a, b) (omega arith, omega arith)
  ]

  -- The write of an eviction index leaves the sums.
  pub index-sums :
      (k : Bytes) (f : Bytes → ℕ) (i : ℕ) (es : List (Bytes × Entry R))
      → (ready_weight f (assign k (λ e. record e { eviction_index = i }) es) ≡ ready_weight f es)
        × (ready_size (assign k (λ e. record e { eviction_index = i }) es) ≡ ready_size es)
  index-sums k f i [] = (refl, refl)
  index-sums k f i ((j, e) ∷ es) =
      let (a, b) = index-sums k f i es in
      elim (Bool-cases (text_eq j k)) [
        | inl q ↦ rw (q, a, b) (refl, refl)
        | inr q ↦ rw (q, a, b) (refl, refl)
      ]

  -- What is read after a write: the entry written, or one from before.
  pub read_written :
      (j k : Bytes) (f : Entry R → Entry R) (es : List (Bytes × Entry R)) (x : Entry R)
      → lookup j (assign k f es) ≡ some x
      → ((k ≡ j) × (e : Entry R) × (lookup k es ≡ some e) × (x ≡ f e)) ⊎ (lookup j es ≡ some x)
  read_written j k f es x l = elim (Bool-cases (text_eq k j)) [
    | inr q ↦ inr (rw (lookup-assign j k f es, q) at l)
    | inl q ↦
        let p : k ≡ j = (text_eq_iff k j).0 q in
        let m : Option.map f (lookup j es) ≡ some x = rw (lookup-assign j k f es, q) at l in
        let (e, a, b) = mapped (lookup j es) m in inl (p, e, ap (λ y. lookup y es) p ∙ a, b)
  ]
    where
      mapped :
          (o : Option (Entry R))
          → Option.map f o ≡ some x
          → (e : Entry R) × (o ≡ some e) × (x ≡ f e)
      mapped none m = cc
      mapped (some e) m = (e, refl, cc)
