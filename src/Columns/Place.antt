-- ===== src/Columns/Place.antt =====
-- cmd/cpe2cve/fieldstoskip.go: where `appendAt` puts its values.
use nvdtools.Prelude.{
  ℕ, zero, suc, ◌+◌, ◌≤◌, ◌<◌, Bool, true, Option, some, List, [], ◌∷◌, ◌++◌, Bytes, ◌==◌, leb,
  if◌then◌else◌, length, get_elem?, lt-get_elem?, ==_iff, subst, ◌≡◌, refl, sym, ap, ◌∙◌, arith,
  Bool-cases, inl, inr,
}
use mathlib.Core.List.{Memᴰ}
use mathlib.Core.List.Memᴰ
use nvdtools.Columns.Skip.{
  take, drop, put_args, no_fields, keys, insert_sorted, sort_ints, put_at, put_keys, append_at,
}
use nvdtools.Columns.Compact.{left_over, skip_fields_lem}

-- No number is below `k`, and each is not below those before it.
abbrev AllFrom : ℕ → List ℕ → Type 0
AllFrom k ks = (x : ℕ) → Memᴰ x ks → k ≤ x

abbrev Ascending : List ℕ → Type 0
Ascending [] = Unit
Ascending (k ∷ ks) = AllFrom k ks × Ascending ks

insert_sorted-mem : (k : ℕ) (ks : List ℕ) (x : ℕ) → Memᴰ x (insert_sorted k ks) → Memᴰ x (k ∷ ks)
unfolding insert_sorted
insert_sorted-mem k [] x m = m
insert_sorted-mem k (y ∷ ks) x m = elim (Bool-cases (leb k y)) [
  | inl e ↦ rw e at m
  | inr e ↦ elim (Memᴰ.cases_cons (rw e at m)) [
    | inl here ↦ Memᴰ.tail (Memᴰ.head here)
    | inr later ↦ elim (Memᴰ.cases_cons (insert_sorted-mem k ks x later)) [
      | inl new ↦ Memᴰ.head new
      | inr old ↦ Memᴰ.tail (Memᴰ.tail old)
    ]
  ]
]

mem-insert_sorted : (k : ℕ) (ks : List ℕ) (x : ℕ) → Memᴰ x (k ∷ ks) → Memᴰ x (insert_sorted k ks)
unfolding insert_sorted
mem-insert_sorted k [] x m = m
mem-insert_sorted k (y ∷ ks) x m = elim (Bool-cases (leb k y)) [
  | inl e ↦ rw e m
  | inr e ↦ rw e (elim (Memᴰ.cases_cons m) [
    | inl new ↦ Memᴰ.tail (mem-insert_sorted k ks x (Memᴰ.head new))
    | inr old ↦ elim (Memᴰ.cases_cons old) [
      | inl here ↦ Memᴰ.head here
      | inr later ↦ Memᴰ.tail (mem-insert_sorted k ks x (Memᴰ.tail later))
    ]
  ])
]

insert_sorted-Ascending : (k : ℕ) (ks : List ℕ) → Ascending ks → Ascending (insert_sorted k ks)
unfolding insert_sorted
insert_sorted-Ascending k [] a = (λ x m. absurd (Memᴰ.not-nil m), tt)
insert_sorted-Ascending k (y ∷ ks) (least, a) = elim (Bool-cases (leb k y)) [
  | inl e ↦ rw e (
      (
        λ x m. elim (Memᴰ.cases_cons m) [
          | inl here ↦ ground (arith, here)
          | inr later ↦ let above = least x later in ground (arith, above)
        ],
        (least, a),
      ))
  | inr e ↦ rw e (
      (
        λ x m. elim (Memᴰ.cases_cons (insert_sorted-mem k ks x m)) [
          | inl new ↦ ground (arith, new)
          | inr old ↦ least x old
        ],
        insert_sorted-Ascending k ks a,
      ))
]

sort_ints-Ascending : (ks : List ℕ) → Ascending (sort_ints ks)
unfolding sort_ints
sort_ints-Ascending [] = tt
sort_ints-Ascending (k ∷ ks) = insert_sorted-Ascending k (sort_ints ks) (sort_ints-Ascending ks)

sort_ints-mem : (ks : List ℕ) (x : ℕ) → Memᴰ x (sort_ints ks) → Memᴰ x ks
unfolding sort_ints
sort_ints-mem [] x m = m
sort_ints-mem (k ∷ ks) x m = elim (Memᴰ.cases_cons (insert_sorted-mem k (sort_ints ks) x m)) [
  | inl here ↦ Memᴰ.head here
  | inr later ↦ Memᴰ.tail (sort_ints-mem ks x later)
]

mem-sort_ints : (ks : List ℕ) (x : ℕ) → Memᴰ x ks → Memᴰ x (sort_ints ks)
unfolding sort_ints
mem-sort_ints [] x m = m
mem-sort_ints (k ∷ ks) x m = mem-insert_sorted k (sort_ints ks) x (elim (Memᴰ.cases_cons m) [
  | inl here ↦ Memᴰ.head here
  | inr later ↦ Memᴰ.tail (mem-sort_ints ks x later)
])

module _ (v : Bytes) where
  put_here :
      (xs : List Bytes) (i : ℕ) → i ≤ length xs → get_elem? (take i xs ++ v ∷ drop i xs) i ≡ some v
  unfolding take drop
  put_here xs zero l = refl
  put_here [] (suc i) l = absurd (omega (arith, l))
  put_here (x ∷ xs) (suc i) l = put_here xs i (omega (arith, l))

  put_below :
      (xs : List Bytes) (i p : ℕ)
      → p < i
      → i ≤ length xs
      → get_elem? (take i xs ++ v ∷ drop i xs) p ≡ get_elem? xs p
  unfolding take drop
  put_below xs zero p l k = absurd (omega (arith, l))
  put_below [] (suc i) p l k = absurd (omega (arith, k))
  put_below (x ∷ xs) (suc i) zero l k = refl
  put_below (x ∷ xs) (suc i) (suc p) l k = put_below xs i p (omega (arith, l)) (omega (arith, k))

  put_longer :
      (xs : List Bytes) (i : ℕ)
      → i ≤ length xs
      → length (take i xs ++ v ∷ drop i xs) ≡ length xs + 1
  unfolding take drop
  put_longer xs zero l = omega arith
  put_longer [] (suc i) l = absurd (omega (arith, l))
  put_longer (x ∷ xs) (suc i) l = omega (arith, put_longer xs i (omega (arith, l)))

-- A value that stands at its position stays there while others are put at no smaller position.
put_keys-stays :
    (fields : ℕ → Bytes) (ks : List ℕ) (to : List Bytes) (p : ℕ)
    → AllFrom p ks
    → get_elem? to p ≡ some (fields p)
    → get_elem? (put_keys fields ks to) p ≡ some (fields p)
unfolding put_keys
put_keys-stays fields [] to p least e = e
put_keys-stays fields (k ∷ ks) to p least e =
    let l : p < length to = lt-get_elem? to p (fields p) e in
    let from_p : p ≤ k = least k (Memᴰ.head refl) in
    let i = if leb k (length to) then k else length to in
    let low : p ≤ i = ground (arith, from_p, l) in
    let high : i ≤ length to = ground arith in
    put_keys-stays fields ks (put_at fields to i) p (λ x m. least x (Memᴰ.tail m))
      (placed i low high)
  where
    placed : (i : ℕ) → p ≤ i → i ≤ length to → get_elem? (put_at fields to i) p ≡ some (fields p)
    placed i low high = elim (Bool-cases (p == i)) [
      | inl same ↦
          let q = (==_iff p i).0 same in
          ap (get_elem? (put_at fields to i)) q
          ∙ put_here (fields i) to i high
          ∙ ap (λ x. some (fields x)) (sym q)
      | inr other ↦ put_below (fields i) to i p (ground (arith, low)) high ∙ e
    ]

-- Keys within the record place their values, and make it longer.
put_keys_lem :
    (fields : ℕ → Bytes) (ks : List ℕ) (to : List Bytes)
    → Ascending ks
    → ((x : ℕ) → Memᴰ x ks → x ≤ length to)
    → ((p : ℕ) → Memᴰ p ks → get_elem? (put_keys fields ks to) p ≡ some (fields p))
      × (length (put_keys fields ks to) ≡ length to + length ks)
unfolding put_keys
put_keys_lem fields [] to a within = (λ p m. absurd (Memᴰ.not-nil m), omega arith)
put_keys_lem fields (k ∷ ks) to (least, a) within =
    let l : k ≤ length to = within k (Memᴰ.head refl) in
    let e : leb k (length to) ≡ true = ground (arith, l) in
    let to' = put_at fields to k in
    let longer = put_longer (fields k) to k l in
    let (placed, counted) =
      put_keys_lem fields ks to' a
        (λ x m. let old = within x (Memᴰ.tail m) in omega (arith, old, longer)) in
    rw e (
      λ p m. elim (Memᴰ.cases_cons m) [
        | inl here ↦
            subst (λ x. get_elem? (put_keys fields ks to') x ≡ some (fields x)) (sym here)
              (put_keys-stays fields ks to' k least (put_here (fields k) to k l))
        | inr later ↦ placed p later
      ],
      omega (arith, counted, longer),
    )

length-insert_sorted : (k : ℕ) (ks : List ℕ) → length (insert_sorted k ks) ≡ length ks + 1
unfolding insert_sorted
length-insert_sorted k [] = omega arith
length-insert_sorted k (y ∷ ks) = ground (arith, length-insert_sorted k ks)

length-sort_ints : (ks : List ℕ) → length (sort_ints ks) ≡ length ks
unfolding sort_ints
length-sort_ints [] = refl
length-sort_ints (k ∷ ks) =
    omega (arith, length-insert_sorted k (sort_ints ks), length-sort_ints ks)

-- Where no position that is given lies past the fields that are left, appendAt returns a record that is
-- longer by the number of positions and holds the last value of each of them at its position.
pub append_at-placed :
    (fs : ℕ → Bool) (to : List Bytes) (args : List (Option ℕ × Bytes))
    → ((x : ℕ) → Memᴰ x (keys args) → x ≤ length (left_over fs 0 to))
    → (out : List Bytes) × (append_at fs to args ≡ some out)
      × (length out ≡ length (left_over fs 0 to) + length (keys args))
      × ((p : ℕ) → Memᴰ p (keys args) → get_elem? out p ≡ some (put_args args no_fields p))
unfolding append_at
append_at-placed fs to args within =
    let ks = sort_ints (keys args) in
    let fields = put_args args no_fields in
    let left = left_over fs 0 to in
    let (placed, counted) =
      put_keys_lem fields ks left (sort_ints-Ascending (keys args))
        (λ x m. within x (sort_ints-mem (keys args) x m)) in
    (
      put_keys fields ks left,
      rw (skip_fields_lem fs to) refl,
      counted ∙ ap (λ n. length left + n) (length-sort_ints (keys args)),
      λ p m. placed p (mem-sort_ints (keys args) p m),
    )
