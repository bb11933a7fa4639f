-- ===== src/Lininfosec/Table.antt =====
-- cmd/lininfosec/monitor.go: a specification of the operations, on a map from names to lists of URIs.
use nvdtools.Prelude.{
  ◌≤◌, Bool, true, false, not, Option, none, some, List, [], Bytes, if◌then◌else◌, text_eq, ◌≡◌,
}
use nvdtools.Lininfosec.Store.{Db, is_member, rows_of, count_configuration}
use nvdtools.Lininfosec.Monitor.{
  Configuration, Outcome, done, require_cpe, internal_error, does_not_exist, database_error,
  panicked, Faults, add_configuration, update_configuration, delete_monitoring,
}

pub data Op : Type 0 where
  adds updates : Configuration → Op
  deletes : Bytes → Op

abbrev pub run : Faults → Op → Db → Db × Outcome
run fails (adds conf) db = add_configuration fails conf db
run fails (updates conf) db = update_configuration fails conf db
run fails (deletes uid) db = delete_monitoring fails uid db

-- The specification: a map from the names of configurations to the URIs that are monitored.
abbrev pub view : Db → Bytes → Option (List Bytes)
view db u = if is_member u db.configurations then some (rows_of u db.monitored) else none

abbrev pub subject : Op → Bytes
subject (adds conf) = conf.name
subject (updates conf) = conf.name
subject (deletes uid) = uid

abbrev pub result : Op → Option (List Bytes)
result (adds conf) = some conf.cpes
result (updates conf) = some conf.cpes
result (deletes uid) = none

abbrev pub after : Op → (Bytes → Option (List Bytes)) → Bytes → Option (List Bytes)
after op table u = if text_eq (subject op) u then result op else table u

-- Only what there is not can be added, and only what there is changed or removed.
abbrev pub expects : Op → Bool → Bool
expects (adds conf) there = not there
expects (updates conf) there = there
expects (deletes uid) there = there

-- A configuration is there once, and one that is not there has no rows.
pub record Integrity (db : Db) : Type 0 where
  pub once : (u : Bytes) → count_configuration u db.configurations ≤ 1
  pub owned : (u : Bytes) → is_member u db.configurations ≡ false → rows_of u db.monitored ≡ []

pub record Made (op : Op) (db db' : Db) : Type 0 where
  pub whole : Integrity db'
  pub expected : expects op (is_member (subject op) db.configurations) ≡ true
  pub seen : (u : Bytes) → view db' u ≡ after op (view db) u

abbrev pub Meets : Op → Db → Db × Outcome → Type 0
Meets op db (db', done) =
    Integrity db'
    × (expects op (is_member (subject op) db.configurations) ≡ true)
    × ((u : Bytes) → view db' u ≡ after op (view db) u)
Meets op db (db', require_cpe) = db' ≡ db
Meets op db (db', internal_error) = db' ≡ db
Meets op db (db', does_not_exist) = db' ≡ db
Meets op db (db', database_error) = db' ≡ db
Meets op db (db', panicked) = db' ≡ db
