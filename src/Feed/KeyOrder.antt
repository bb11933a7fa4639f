-- ===== src/Feed/KeyOrder.antt =====
-- cvefeed/cvecache.go: the key of a query does not depend on the order of its names.
use nvdtools.Prelude.{
  true, false, Option, none, some, List, [], ◌∷◌, Bytes, join, if◌then◌else◌, compare_texts,
  compare_lists-IsOrder, compare-IsOrder, IsOrder, Chain, flip, Ordering, ◌≡◌, refl, sym, ap, ◌∙◌,
  arith, Bool-cases, inl, inr,
}
use mathlib.Core.List.{Permᴰ}
use nvdtools.Wfn.Attributes.{Attributes}
use nvdtools.Feed.Keys.{greater, is_gt, insert_text, sort, name_key, name_keys, cache_key}

texts-IsOrder : IsOrder compare_texts
texts-IsOrder = compare_lists-IsOrder compare-IsOrder

compare_texts-eq : (s t : Bytes) → compare_texts s t ≡ Ordering.eq → s ≡ t
compare_texts-eq [] [] e = refl
compare_texts-eq [] (y ∷ t) e = cc
compare_texts-eq (x ∷ s) [] e = cc
compare_texts-eq (x ∷ s) (y ∷ t) e = ground (arith, compare_texts-eq s t)

-- What `greater` means for two and for three texts.
is_gt-flip : (r : Ordering) → is_gt r ≡ true → is_gt (flip r) ≡ false
is_gt-flip Ordering.lt e = cc
is_gt-flip Ordering.eq e = cc
is_gt-flip Ordering.gt e = refl

is_gt-neither : (r : Ordering) → is_gt r ≡ false → is_gt (flip r) ≡ false → r ≡ Ordering.eq
is_gt-neither Ordering.lt e f = cc
is_gt-neither Ordering.eq e f = refl
is_gt-neither Ordering.gt e f = cc

is_gt-Chain : (r s t : Ordering) → Chain r s t → is_gt r ≡ true → is_gt s ≡ true → is_gt t ≡ true
is_gt-Chain Ordering.gt Ordering.gt t c e f = rw c refl
is_gt-Chain Ordering.gt Ordering.eq t c e f = cc
is_gt-Chain Ordering.gt Ordering.lt t c e f = cc
is_gt-Chain Ordering.eq s t c e f = cc
is_gt-Chain Ordering.lt s t c e f = cc

is_gt-unchain :
    (r s t : Ordering) → Chain r s t → is_gt r ≡ false → is_gt s ≡ false → is_gt t ≡ false
is_gt-unchain Ordering.gt s t c e f = cc
is_gt-unchain Ordering.eq s t c e f = rw c f
is_gt-unchain Ordering.lt Ordering.gt t c e f = cc
is_gt-unchain Ordering.lt Ordering.eq t c e f = rw c refl
is_gt-unchain Ordering.lt Ordering.lt t c e f = rw c refl

module _ (s t : Bytes) where
  greater-flip : greater s t ≡ true → greater t s ≡ false
  greater-flip e = rw (texts-IsOrder.flips s t) (is_gt-flip (compare_texts s t) e)

  greater-neither : greater s t ≡ false → greater t s ≡ false → s ≡ t
  greater-neither e f =
      compare_texts-eq s t
        (is_gt-neither (compare_texts s t) e (ap is_gt (sym (texts-IsOrder.flips s t)) ∙ f))

  greater-chain : (u : Bytes) → greater s t ≡ true → greater t u ≡ true → greater s u ≡ true
  greater-chain u =
      is_gt-Chain (compare_texts s t) (compare_texts t u) (compare_texts s u)
        (texts-IsOrder.chains s t u)

  greater-unchain : (u : Bytes) → greater s t ≡ false → greater t u ≡ false → greater s u ≡ false
  greater-unchain u =
      is_gt-unchain (compare_texts s t) (compare_texts t u) (compare_texts s u)
        (texts-IsOrder.chains s t u)

-- Two texts in a row, each before the other if it is not greater.
insert_text-head :
    (s t : Bytes) (ts : List Bytes)
    → (if greater s t then t ∷ s ∷ ts else s ∷ t ∷ ts)
      ≡ (if greater t s then s ∷ t ∷ ts else t ∷ s ∷ ts)
insert_text-head s t ts = elim (Bool-cases (greater s t)) [
  | inl e ↦ rw (e, greater-flip s t e) refl
  | inr e ↦ elim (Bool-cases (greater t s)) [
    | inl f ↦ rw (e, f) refl
    | inr f ↦ rw (e, f, greater-neither s t e f) refl
  ]
]

-- A greater text goes behind one that is not greater than the first of the list.
insert_text-behind :
    (s t u : Bytes) (ts : List Bytes)
    → greater s u ≡ true
    → greater t u ≡ false
    → insert_text s (insert_text t (u ∷ ts)) ≡ insert_text t (insert_text s (u ∷ ts))
insert_text-behind s t u ts e f = elim (Bool-cases (greater s t)) [
  | inl g ↦ rw (f, e, g, f) refl
  | inr g ↦ let no = greater-unchain s t u g f in cc
]

insert_text-swap :
    (s t : Bytes) (ts : List Bytes)
    → insert_text s (insert_text t ts) ≡ insert_text t (insert_text s ts)
insert_text-swap s t [] = insert_text-head s t []
insert_text-swap s t (u ∷ ts) = elim (Bool-cases (greater s u)) [
  | inl e ↦ elim (Bool-cases (greater t u)) [
    | inl f ↦ rw (e, f, e) (ap (λ x. u ∷ x) (insert_text-swap s t ts))
    | inr f ↦ insert_text-behind s t u ts e f
  ]
  | inr e ↦ elim (Bool-cases (greater t u)) [
    | inl f ↦ sym (insert_text-behind t s u ts f e)
    | inr f ↦ rw (e, f, e) (insert_text-head s t (u ∷ ts))
  ]
]

abbrev add_key : Option Attributes → List Bytes → List Bytes
add_key none ts = ts
add_key (some a) ts = insert_text (name_key a) ts

sorted_keys :
    (x : Option Attributes) (cpes : List (Option Attributes))
    → sort (name_keys (x ∷ cpes)) ≡ add_key x (sort (name_keys cpes))
sorted_keys none cpes = refl
sorted_keys (some a) cpes = refl

add_key-swap :
    (x y : Option Attributes) (ts : List Bytes)
    → add_key x (add_key y ts) ≡ add_key y (add_key x ts)
add_key-swap none y ts = refl
add_key-swap (some a) none ts = refl
add_key-swap (some a) (some b) ts = insert_text-swap (name_key a) (name_key b) ts

sort-Perm :
    {xs ys : List (Option Attributes)} → Permᴰ xs ys → sort (name_keys xs) ≡ sort (name_keys ys)
sort-Perm Permᴰ.nil = refl
sort-Perm (Permᴰ.cons {a} {b} {l₁} {l₂} e p) =
    sorted_keys a l₁
    ∙ ap (add_key a) (sort-Perm p)
    ∙ ap (λ x. add_key x (sort (name_keys l₂))) e
    ∙ sym (sorted_keys b l₂)
sort-Perm (Permᴰ.swap {a} {b} {a'} {b'} {l} e f) =
    let ts = sort (name_keys l) in
    sorted_keys a (b ∷ l)
    ∙ ap (add_key a) (sorted_keys b l)
    ∙ add_key-swap a b ts
    ∙ ap (λ x. add_key x (add_key a ts)) f
    ∙ ap (λ x. add_key a' (add_key x ts)) e
    ∙ sym (ap (add_key a') (sorted_keys b' l))
    ∙ sym (sorted_keys a' (b' ∷ l))
sort-Perm (Permᴰ.trans p q) = sort-Perm p ∙ sort-Perm q

-- Queries with the same names in another order have the same key.
pub cache_key-Perm : {xs ys : List (Option Attributes)} → Permᴰ xs ys → cache_key xs ≡ cache_key ys
unfolding cache_key
cache_key-Perm p = ap (join b'#') (sort-Perm p)
