-- ===== src/Lininfosec/Refines.antt =====
-- cmd/lininfosec/monitor.go: the operations on configurations implement their specification.
use nvdtools.Prelude.{
  ℕ, suc, Bool, true, false, Option, none, some, List, [], ◌∷◌, Bytes, if◌then◌else◌, text_eq, ◌≡◌,
  refl, sym, ap, subst, ◌∙◌, Bool-cases, inl, inr, ◌==◌,
}
use nvdtools.Lininfosec.Store.{
  Db, is_member, rows_of, count_configuration, insert_configuration, insert_monitored,
  delete_monitored, delete_configuration,
}
use nvdtools.Lininfosec.Monitor.{
  Configuration, Outcome, done, internal_error, does_not_exist, database_error, Faults, Tx, now,
  stopped, exec, finish, begin, count_one, add_configuration, update_configuration,
  delete_monitoring, get_configuration, Found, found, not_found, found_rows, scan_rows,
}
use nvdtools.Lininfosec.Table.{
  Op, adds, updates, deletes, run, view, subject, result, Integrity, Made, Meets,
}
use nvdtools.Lininfosec.Effects.{update-Made, add-Made, delete-Made}

-- A transaction that goes on has made the result, and one that has stopped has an error.
abbrev OnWay : Op → Db → (Db → Type 0) → Tx → Type 0
OnWay op db Reached (now db') = Reached db'
OnWay op db Reached (stopped e) = Meets op db (db, e)

module _ (op : Op) (db : Db) where
  finish-Meets : (b : Bool) (t : Tx) → OnWay op db (Made op db) t → Meets op db (finish db b t)
  finish-Meets b (stopped e) h = h
  finish-Meets true (now db') h = refl
  finish-Meets false (now db') h = (h.whole, h.expected, h.seen)

  begin-Meets : (b : Bool) (r : Db × Outcome) → Meets op db r → Meets op db (begin db b r)
  begin-Meets true r h = refl
  begin-Meets false r h = h

  exec-OnWay :
      (Reached : Db → Type 0) (b : Bool) (r : Option Db) (e : Outcome) (onward : Db → Tx)
      → Meets op db (db, e)
      → ((db1 : Db) → r ≡ some db1 → OnWay op db Reached (onward db1))
      → OnWay op db Reached (exec b r e onward)
  exec-OnWay Reached true r e onward err h = err
  exec-OnWay Reached false none e onward err h = err
  exec-OnWay Reached false (some db1) e onward err h = h db1 refl

  count_one-OnWay :
      (Reached : Db → Type 0) (a b c : Bool) (n : ℕ) (t : Tx)
      → ((n == 1) ≡ true → OnWay op db Reached t)
      → OnWay op db Reached (count_one a b c n t)
  count_one-OnWay Reached true b c n t h = refl
  count_one-OnWay Reached false true c n t h = refl
  count_one-OnWay Reached false false true n t h = refl
  count_one-OnWay Reached false false false n t h = elim (Bool-cases (n == 1)) [
    | inl e ↦ rw e (h e)
    | inr e ↦ rw e refl
  ]

abbrev configured : Bytes → List Bytes → Configuration
configured name cpes = record { name = name; cpes = cpes }

add_configuration-Meets :
    (fails : Faults) (name : Bytes) (cpes : List Bytes) (db : Db)
    → Integrity db
    → Meets (adds (configured name cpes)) db (add_configuration fails (configured name cpes) db)
unfolding add_configuration
add_configuration-Meets fails name [] db i = refl
add_configuration-Meets fails name (cpe ∷ cpes) db i =
    let conf = configured name (cpe ∷ cpes) in
    let op = adds conf in
    begin-Meets op db (fails 0) _ (
      finish-Meets op db (fails 3) _ (
        exec-OnWay op db (Made op db) (fails 1) (insert_configuration conf.name db) internal_error _
          refl
          (λ db1 e.
            exec-OnWay op db (Made op db) (fails 2) (insert_monitored conf.name (cpe ∷ cpes) db1)
              database_error now refl (λ db2 f. add-Made conf db db1 db2 i e f))))

some-same : {A : Type 0} {x y : A} → some x ≡ some y → x ≡ y
some-same e = cc

update_configuration-Meets :
    (fails : Faults) (name : Bytes) (cpes : List Bytes) (db : Db)
    → Integrity db
    → Meets
        (updates (configured name cpes))
        db
        (update_configuration fails (configured name cpes) db)
unfolding update_configuration
update_configuration-Meets fails name [] db i = refl
update_configuration-Meets fails name (cpe ∷ cpes) db i =
    let conf = configured name (cpe ∷ cpes) in
    let op = updates conf in
    let uid = conf.name in
    let emptied = delete_monitored uid db in
    begin-Meets op db (fails 0) _ (
      finish-Meets op db (fails 6) _ (
        count_one-OnWay op db (Made op db) (fails 1) (fails 2) (fails 3)
          (count_configuration uid db.configurations) _
          (λ k.
            exec-OnWay op db (Made op db) (fails 4) (some emptied) internal_error _ refl (λ db1 e.
              exec-OnWay op db (Made op db) (fails 5) (insert_monitored uid (cpe ∷ cpes) db1)
                internal_error now refl
                (λ db2 f.
                  update-Made conf db db2 i k
                    (ap (insert_monitored uid (cpe ∷ cpes)) (some-same e) ∙ f))))))

delete_monitoring-Meets :
    (fails : Faults) (uid : Bytes) (db : Db)
    → Integrity db
    → Meets (deletes uid) db (delete_monitoring fails uid db)
unfolding delete_monitoring
delete_monitoring-Meets fails uid db i =
    let op = deletes uid in
    begin-Meets op db (fails 0) _ (
      finish-Meets op db (fails 6) _ (
        count_one-OnWay op db (Made op db) (fails 1) (fails 2) (fails 3)
          (count_configuration uid db.configurations) _
          (λ k.
            exec-OnWay op db (Made op db) (fails 4) (some (delete_monitored uid db)) internal_error
              _ refl
              (λ db1 e.
                exec-OnWay op db (Made op db) (fails 5) (some (delete_configuration uid db1))
                  internal_error now refl
                  (λ db2 f.
                    subst (Made op db) (ap (delete_configuration uid) (some-same e) ∙ some-same f)
                      (delete-Made uid db i k))))))

-- However calls of the database fail, an operation on a database with integrity either ends without an
-- error, was expected, leaves integrity, and changes the map of the monitored configurations as the
-- specification says, or ends with an error or a panic and leaves the database as it was.
pub run-Meets : (fails : Faults) (op : Op) (db : Db) → Integrity db → Meets op db (run fails op db)
run-Meets fails (adds conf) db i = add_configuration-Meets fails conf.name conf.cpes db i
run-Meets fails (updates conf) db i = update_configuration-Meets fails conf.name conf.cpes db i
run-Meets fails (deletes uid) db i = delete_monitoring-Meets fails uid db i

abbrev pub never : Faults
never n = false

-- What a configuration of the map reads as.
abbrev pub shown : Option (List Bytes) → Found
shown none = not_found does_not_exist
shown (some []) = not_found does_not_exist
shown (some (x ∷ xs)) = found (x ∷ xs)

scan_rows-never : (n : ℕ) (xs : List Bytes) → scan_rows never n xs ≡ some xs
scan_rows-never n [] = refl
scan_rows-never n (x ∷ xs) = rw (scan_rows-never (suc n) xs) refl

get_configuration-view :
    (u : Bytes) (db : Db) → Integrity db → get_configuration never u db ≡ shown (view db u)
unfolding get_configuration
get_configuration-view u db i =
    ap found_rows (scan_rows-never 1 (rows_of u db.monitored))
    ∙ elim (Bool-cases (is_member u db.configurations)) [
      | inl e ↦ rw e (same (rows_of u db.monitored))
      | inr e ↦ rw (e, i.owned u e) refl
    ]
  where
    same : (xs : List Bytes) → found_rows (some xs) ≡ shown (some xs)
    same [] = refl
    same (x ∷ xs) = refl

-- After an operation on a database with integrity that ends without an error, reading any configuration,
-- where no call fails, gives what the operation has written if it is the one that the operation names,
-- and what was there before otherwise.
pub get_configuration-run :
    (fails : Faults) (op : Op) (db db' : Db) (u : Bytes)
    → Integrity db
    → run fails op db ≡ (db', done)
    → get_configuration never u db'
      ≡ (if text_eq (subject op) u then shown (result op) else get_configuration never u db)
get_configuration-run fails op db db' u i e =
    let (j, permitted, seen) = subst (Meets op db) e (run-Meets fails op db i) in
    get_configuration-view u db' j
    ∙ ap shown (seen u)
    ∙ elim (Bool-cases (text_eq (subject op) u)) [
      | inl q ↦ rw q refl
      | inr q ↦ rw q (sym (get_configuration-view u db i))
    ]
