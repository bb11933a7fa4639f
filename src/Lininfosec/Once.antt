-- ===== src/Lininfosec/Once.antt =====
-- cmd/lininfosec/notify.go: each vulnerability of a configuration is sent once.
use nvdtools.Prelude.{
  ℕ, ◌+◌, ◌≤◌, Bool, true, false, ◌&&◌, Option, none, some, List, [], ◌∷◌, ◌++◌, Bytes, ◌==◌, leb,
  if◌then◌else◌, text_eq, text_eq_iff, ◌≡◌, refl, sym, ap, subst, ◌∙◌, arith, Bool-cases, inl, inr,
}
use nvdtools.Lininfosec.Store.{Db, count_notified, insert_notified, is_member}
use nvdtools.Lininfosec.Monitor.{Faults}
use nvdtools.Lininfosec.Notify.{
  Filtered, sent, failed, panicked, prepend, store, one_vuln, filter_notifications,
}

count_notified-append :
    (c u : Bytes) (xs ys : List (Bytes × Bytes))
    → count_notified c u (xs ++ ys) ≡ count_notified c u xs + count_notified c u ys
unfolding count_notified
count_notified-append c u [] ys = omega arith
count_notified-append c u ((d, v) ∷ xs) ys = ground (arith, count_notified-append c u xs ys)

-- How often a run sends a vulnerability: once, if it was found and not sent before.
abbrev pub times_sent : ℕ → ℕ → ℕ
times_sent found before = if leb 1 found && (before == 0) then 1 else 0

-- What a run does with one vulnerability, however it ends.
abbrev pub Counted : Bytes → Bytes → ℕ → Db → Db × Filtered → Type 0
Counted c u found db (db', sent vs) =
    (count_notified c u vs ≡ times_sent found (count_notified c u db.notified))
    × (count_notified c u db'.notified ≡ count_notified c u db.notified + count_notified c u vs)
Counted c u found db (db', failed) =
    count_notified c u db.notified ≤ count_notified c u db'.notified
Counted c u found db (db', panicked) =
    count_notified c u db.notified ≤ count_notified c u db'.notified

-- Pairs are counted alike if their parts are the same texts.
same_pair :
    (c u d v : Bytes) (rows : List (Bytes × Bytes))
    → (text_eq d c && text_eq v u) ≡ true
    → count_notified d v rows ≡ count_notified c u rows
same_pair c u d v rows h =
    let a : text_eq d c ≡ true = ground arith in
    let b : text_eq v u ≡ true = ground arith in
    ap (λ x. count_notified x v rows) ((text_eq_iff d c).0 a)
    ∙ ap (λ x. count_notified c x rows) ((text_eq_iff v u).0 b)

-- A pair that was found once more, and stored before already.
Counted-again :
    (c u d v : Bytes) (found : ℕ) (db : Db) (r : Db × Filtered)
    → (count_notified d v db.notified == 0) ≡ false
    → Counted c u found db r
    → Counted c u (count_notified c u ((d, v) ∷ []) + found) db r
unfolding count_notified
Counted-again c u d v found db (db', sent vs) q (h, k) =
    elim (Bool-cases (text_eq d c && text_eq v u)) [
      | inl e ↦
          let same : count_notified d v db.notified ≡ count_notified c u db.notified =
            same_pair c u d v db.notified e in
          (ground arith, k)
      | inr e ↦ (ground arith, k)
    ]
Counted-again c u d v found db (db', failed) q h = h
Counted-again c u d v found db (db', panicked) q h = h

-- A pair that is stored now.
Counted-new :
    (c u d v : Bytes) (found : ℕ) (db db1 : Db) (r : Db × Filtered)
    → (count_notified d v db.notified == 0) ≡ true
    → db1.notified ≡ db.notified ++ (d, v) ∷ []
    → Counted c u found db1 r
    → Counted c u (count_notified c u ((d, v) ∷ []) + found) db (prepend (d, v) r)
unfolding count_notified
Counted-new c u d v found db db1 r q e h =
    let stored : count_notified c u db1.notified
        ≡ count_notified c u db.notified + count_notified c u ((d, v) ∷ []) =
      ap (count_notified c u) e ∙ count_notified-append c u db.notified ((d, v) ∷ []) in
    ended r h stored
  where
    ended :
        (r : Db × Filtered)
        → Counted c u found db1 r
        → count_notified c u db1.notified
          ≡ count_notified c u db.notified + count_notified c u ((d, v) ∷ [])
        → Counted c u (count_notified c u ((d, v) ∷ []) + found) db (prepend (d, v) r)
    ended (db', failed) h stored = omega (arith, h, stored)
    ended (db', panicked) h stored = omega (arith, h, stored)
    ended (db', sent vs) (h, k) stored = elim (Bool-cases (text_eq d c && text_eq v u)) [
      | inl e ↦
          let same : count_notified d v db.notified ≡ count_notified c u db.notified =
            same_pair c u d v db.notified e in
          (ground arith, ground arith)
      | inr e ↦ (ground arith, ground arith)
    ]

insert_notified-rows :
    (cve uid : Bytes) (db db1 : Db)
    → insert_notified cve uid db ≡ some db1
    → db1.notified ≡ db.notified ++ (cve, uid) ∷ []
unfolding insert_notified
insert_notified-rows cve uid db db1 e = elim (Bool-cases (is_member uid db.configurations)) [
  | inl k ↦
      let same : some (record db { notified = db.notified ++ (cve, uid) ∷ [] }) ≡ some db1 =
        rw k at e in
      let rows : record db { notified = db.notified ++ (cve, uid) ∷ [] } ≡ db1 = cc in
      sym (ap (λ x. x.notified) rows)
  | inr k ↦ let none_here : none ≡ some db1 = rw k at e in cc
]

unchanged : (c u : Bytes) (found : ℕ) (db : Db) → Counted c u found db (db, failed)
unchanged c u found db = omega arith

module _ (c u d v : Bytes) (found : ℕ) (db : Db) (onward : Db → Db × Filtered)
    (rest : (db' : Db) → Counted c u found db' (onward db')) where
  store-Counted :
      (a b : Bool) (o : Option Db)
      → insert_notified d v db ≡ o
      → (count_notified d v db.notified == 0) ≡ true
      → Counted c u (count_notified c u ((d, v) ∷ []) + found) db (store a b o db (d, v) onward)
  store-Counted a b none e q = omega arith
  store-Counted true b (some db1) e q = omega arith
  store-Counted false true (some db1) e q = omega arith
  store-Counted false false (some db1) e q =
      Counted-new c u d v found db db1 (onward db1) q (insert_notified-rows d v db db1 e) (rest db1)

  one_vuln-Counted :
      (fails : Faults) (n : ℕ)
      → Counted c u
          (count_notified c u ((d, v) ∷ []) + found)
          db
          (one_vuln fails n (d, v) db onward)
  one_vuln-Counted fails n = elim (Bool-cases (fails n)) [
    | inl e ↦ rw e (unchanged c u (count_notified c u ((d, v) ∷ []) + found) db)
    | inr e ↦ elim (Bool-cases (fails (n + 1))) [
      | inl f ↦ rw (e, f) (unchanged c u (count_notified c u ((d, v) ∷ []) + found) db)
      | inr f ↦ elim (Bool-cases (fails (n + 2))) [
        | inl g ↦ rw (e, f, g) (unchanged c u (count_notified c u ((d, v) ∷ []) + found) db)
        | inr g ↦ elim (Bool-cases (count_notified d v db.notified == 0)) [
          | inl q ↦
              rw (e, f, g, q)
                (store-Counted (fails (n + 3)) (fails (n + 4)) (insert_notified d v db) refl q)
          | inr q ↦ rw (e, f, g, q) (Counted-again c u d v found db (onward db) q (rest db))
        ]
      ]
    ]
  ]

-- However calls of the database fail, a run that ends without an error sends each vulnerability that it
-- found and that was not stored before exactly once, and no other, and stores what it sends; a run that
-- ends with an error loses nothing that was stored.
pub filter_notifications-Counted :
    (fails : Faults) (n : ℕ) (vulns : List (Bytes × Bytes)) (db : Db) (c u : Bytes)
    → Counted c u (count_notified c u vulns) db (filter_notifications fails n vulns db)
unfolding filter_notifications
filter_notifications-Counted fails n [] db c u =
    (none_found (count_notified c u db.notified), none_stored)
  where
    none_found : (k : ℕ) → count_notified c u [] ≡ times_sent (count_notified c u []) k
    none_found k = unfold count_notified in ground arith

    none_stored :
        count_notified c u db.notified ≡ count_notified c u db.notified + count_notified c u []
    none_stored = unfold count_notified in omega arith
filter_notifications-Counted fails n ((d, v) ∷ vulns) db c u =
    subst
      (λ k.
        Counted c u k db
          (one_vuln fails n (d, v) db (λ db'. filter_notifications fails (n + 5) vulns db')))
      (sym (count_notified-append c u ((d, v) ∷ []) vulns))
      (one_vuln-Counted c u d v (count_notified c u vulns) db
        (λ db'. filter_notifications fails (n + 5) vulns db')
        (λ db'. filter_notifications-Counted fails (n + 5) vulns db' c u) fails n)
