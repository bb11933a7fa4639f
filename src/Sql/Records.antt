-- ===== src/Sql/Records.antt =====
-- vulndb/sqlutil/record.go: records, which pair columns with values, and their subsets. The columns
-- and the values of a struct come by reflection; here they are given.
use nvdtools.Prelude.{
  Bool, false, ◌||◌, Option, none, some, List, [], ◌∷◌, ◌++◌, map, Bytes, length, if◌then◌else◌,
  text_eq, ◌==◌, ==_refl, ◌≡◌, refl, arith, Bool-cases, inl, inr,
}

-- `inSubset`
unfoldable pub in_subset : List Bytes → Bytes → Bool
unfolding text_eq
in_subset [] s = false
in_subset (f ∷ fs) s = text_eq s f || in_subset fs s

length-map {ℓ} : {A B : Type ℓ} (f : A → B) (xs : List A) → length (map f xs) ≡ length xs
length-map f [] = refl
length-map f (x ∷ xs) = omega (arith, length-map f xs)

module _ (V : Type 0) where
  -- `recordSubset`, and what a struct shows of itself.
  pub record Record : Type 0 where
    pub cols : List Bytes
    pub vals : List V

module _ {V : Type 0} where
  abbrev pub add_field : Bytes → V → Option (Record V) → Option (Record V)
  add_field col v none = none
  add_field col v (some r) = some (record { cols = col ∷ r.cols; vals = v ∷ r.vals })

  -- The loop of `newRecordSubset`, on what is left of the columns and the values; an index past the
  -- values panics, `none`.
  unfoldable pub subset_loop : List Bytes → List Bytes → List V → Option (Record V)
  unfolding in_subset
  subset_loop fs [] vals = some (record { cols = []; vals = [] })
  subset_loop fs (col ∷ cols) [] = if in_subset fs col then none else subset_loop fs cols []
  subset_loop fs (col ∷ cols) (v ∷ vals) =
      let rest = subset_loop fs cols vals in if in_subset fs col then add_field col v rest else rest

  -- `newRecordSubset`. Different lengths panic.
  unfoldable pub subset : Record V → List Bytes → Option (Record V)
  unfolding subset_loop
  subset r fs = if length r.cols == length r.vals then subset_loop fs r.cols r.vals else none

  -- `Records.Fields` and `Records.Values`
  abbrev pub fields : List (Record V) → List Bytes
  fields [] = []
  fields (r ∷ rs) = r.cols

  abbrev pub values : List (Record V) → List V
  values [] = []
  values (r ∷ rs) = r.vals ++ values rs

  -- A record as a list of pairs, and back.
  abbrev pub of_pairs : List (Bytes × V) → Record V
  of_pairs ps = record { cols = map (λ p. p.0) ps; vals = map (λ p. p.1) ps }

  abbrev pub keep : List Bytes → List (Bytes × V) → List (Bytes × V)
  keep fs [] = []
  keep fs (p ∷ ps) = if in_subset fs p.0 then p ∷ keep fs ps else keep fs ps

  subset_loop-keep :
      (fs : List Bytes) (ps : List (Bytes × V))
      → subset_loop fs (map (λ p. p.0) ps) (map (λ p. p.1) ps) ≡ some (of_pairs (keep fs ps))
  unfolding subset_loop
  subset_loop-keep fs [] = refl
  subset_loop-keep fs (p ∷ ps) = elim (Bool-cases (in_subset fs p.0)) [
    | inl h ↦ rw (h, subset_loop-keep fs ps)
    | inr h ↦ rw (h, subset_loop-keep fs ps)
  ]

  -- The subset of a record of pairs holds the pairs whose column is wanted, in order.
  pub subset-of_pairs :
      (ps : List (Bytes × V)) (fs : List Bytes)
      → subset (of_pairs ps) fs ≡ some (of_pairs (keep fs ps))
  unfolding subset
  subset-of_pairs ps fs =
      rw
        (
          length-map (λ (p : Bytes × V). p.0) ps,
          length-map (λ (p : Bytes × V). p.1) ps,
          ==_refl (length ps),
        )
        (subset_loop-keep fs ps)
