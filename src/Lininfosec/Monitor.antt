-- ===== src/Lininfosec/Monitor.antt =====
-- cmd/lininfosec/monitor.go: adding, changing, removing and reading the configurations.
--
-- Which calls of the database driver fail is a function of their number within an operation, from 0: a
-- call that fails changes nothing. A failed query gives nil rows, whose Close panics. What a
-- transaction does is seen once it commits, and undone by Rollback, also in a panic.
use nvdtools.Prelude.{
  ℕ, suc, Bool, true, false, Option, none, some, List, [], ◌∷◌, Bytes, ◌==◌, if◌then◌else◌,
}
use nvdtools.Lininfosec.Store.{
  Db, insert_configuration, insert_monitored, count_configuration, delete_monitored,
  delete_configuration, rows_of,
}

pub record Configuration : Type 0 where
  pub name : Bytes
  pub cpes : List Bytes

pub data Outcome : Type 0 where
  done require_cpe internal_error does_not_exist database_error panicked : Outcome

abbrev pub Faults : Type 0
Faults = ℕ → Bool

-- What a transaction has made of the database, or why it does not commit.
pub data Tx : Type 0 where
  now : Db → Tx
  stopped : Outcome → Tx

-- `tx.Exec`, of a statement that may be refused
abbrev pub exec : Bool → Option Db → Outcome → (Db → Tx) → Tx
exec true r e onward = stopped e
exec false none e onward = stopped e
exec false (some db) e onward = onward db

-- The deferred function: `tx.Rollback`, or `tx.Commit`, which may fail.
abbrev pub finish : Db → Bool → Tx → Db × Outcome
finish db commit_fails (stopped e) = (db, e)
finish db true (now db') = (db, database_error)
finish db false (now db') = (db', done)

abbrev pub begin : Db → Bool → (Db × Outcome) → Db × Outcome
begin db true run = (db, internal_error)
begin db false run = run

-- Counting a configuration: the query, its row, and the scan of the row.
abbrev pub count_one : Bool → Bool → Bool → ℕ → Tx → Tx
count_one query_fails no_row scan_fails n onward =
    if query_fails
    then stopped panicked
    else if no_row
    then stopped internal_error
    else if scan_fails
    then stopped internal_error
    else if n == 1
    then onward
    else stopped does_not_exist

unfoldable pub add_configuration : Faults → Configuration → Db → Db × Outcome
unfolding insert_configuration insert_monitored
add_configuration fails conf db = elim (conf.cpes) [
  | [] ↦ (db, require_cpe)
  | cpe ∷ cpes ↦ begin db (fails 0) (
      finish db (fails 3) (
        exec (fails 1) (insert_configuration conf.name db) internal_error
          (λ db1. exec (fails 2) (insert_monitored conf.name (cpe ∷ cpes) db1) database_error now)))
]

unfoldable pub update_configuration : Faults → Configuration → Db → Db × Outcome
unfolding count_configuration delete_monitored insert_monitored
update_configuration fails conf db = elim (conf.cpes) [
  | [] ↦ (db, internal_error)
  | cpe ∷ cpes ↦ begin db (fails 0) (
      finish db (fails 6) (
        count_one (fails 1) (fails 2) (fails 3) (count_configuration conf.name db.configurations) (
          exec (fails 4) (some (delete_monitored conf.name db)) internal_error (λ db1.
            exec (fails 5) (insert_monitored conf.name (cpe ∷ cpes) db1) internal_error now))))
]

unfoldable pub delete_monitoring : Faults → Bytes → Db → Db × Outcome
unfolding count_configuration delete_monitored delete_configuration
delete_monitoring fails uid db = begin db (fails 0) (
    finish db (fails 6) (
      count_one (fails 1) (fails 2) (fails 3) (count_configuration uid db.configurations) (
        exec (fails 4) (some (delete_monitored uid db)) internal_error
          (λ db1. exec (fails 5) (some (delete_configuration uid db1)) internal_error now))))

-- The rows as they are scanned, from the number of the call on.
abbrev pub scan_rows : Faults → ℕ → List Bytes → Option (List Bytes)
scan_rows fails n [] = some []
scan_rows fails n (x ∷ xs) =
    let rest = scan_rows fails (suc n) xs in if fails n then none else add_row x rest
  where
    add_row : Bytes → Option (List Bytes) → Option (List Bytes)
    add_row x none = none
    add_row x (some xs) = some (x ∷ xs)

pub data Found : Type 0 where
  found : List Bytes → Found
  not_found : Outcome → Found

abbrev pub found_rows : Option (List Bytes) → Found
found_rows none = not_found internal_error
found_rows (some []) = not_found does_not_exist
found_rows (some (x ∷ xs)) = found (x ∷ xs)

unfoldable pub get_configuration : Faults → Bytes → Db → Found
unfolding rows_of
get_configuration fails uid db =
    if fails 0
    then not_found internal_error
    else found_rows (scan_rows fails 1 (rows_of uid db.monitored))
