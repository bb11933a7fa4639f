-- ===== src/Lininfosec/Store.antt =====
-- cmd/lininfosec/schema.sql: the tables of the service, and the statements that the code runs on them.
--
-- A table is the list of its rows in the order of their insertion, in which queries give them back.
-- Texts are compared byte by byte, and are within the widths of their columns. A statement gives `none`
-- where another constraint of the schema refuses it.
use nvdtools.Prelude.{
  ℕ, suc, Bool, true, false, ◌&&◌, Option, none, some, List, [], ◌∷◌, ◌++◌, Bytes, if◌then◌else◌,
  text_eq,
}

pub record Db : Type 0 where
  -- the column `uri` of `cpe_dict`
  pub dictionary : List Bytes
  -- `monitored_configurations`
  pub configurations : List Bytes
  -- `cpe_monitored`: a URI and a configuration
  pub monitored : List (Bytes × Bytes)
  -- `cves_notified`: an id and a configuration
  pub notified : List (Bytes × Bytes)

unfoldable pub is_member : Bytes → List Bytes → Bool
unfolding text_eq
is_member x [] = false
is_member x (y ∷ ys) = if text_eq x y then true else is_member x ys

unfoldable pub all_members : List Bytes → List Bytes → Bool
unfolding is_member
all_members [] ys = true
all_members (x ∷ xs) ys = if is_member x ys then all_members xs ys else false

-- The rows without those of a configuration.
unfoldable pub rows_without : Bytes → List (Bytes × Bytes) → List (Bytes × Bytes)
unfolding text_eq
rows_without uid [] = []
rows_without uid ((x, u) ∷ rows) =
    let rest = rows_without uid rows in if text_eq u uid then rest else (x, u) ∷ rest

unfoldable pub without : Bytes → List Bytes → List Bytes
unfolding text_eq
without uid [] = []
without uid (u ∷ us) = let rest = without uid us in if text_eq u uid then rest else u ∷ rest

-- The first column of the rows of a configuration.
unfoldable pub rows_of : Bytes → List (Bytes × Bytes) → List Bytes
unfolding text_eq
rows_of uid [] = []
rows_of uid ((x, u) ∷ rows) =
    let rest = rows_of uid rows in if text_eq u uid then x ∷ rest else rest

abbrev pub rows_for : Bytes → List Bytes → List (Bytes × Bytes)
rows_for uid [] = []
rows_for uid (x ∷ xs) = (x, uid) ∷ rows_for uid xs

-- `INSERT INTO monitored_configurations (uid) VALUES (?)`: the key is unique.
unfoldable pub insert_configuration : Bytes → Db → Option Db
unfolding is_member
insert_configuration uid db =
    if is_member uid db.configurations
    then none
    else some (record db { configurations = db.configurations ++ uid ∷ [] })

-- `INSERT INTO cpe_monitored`, of several rows: the foreign keys have to be there.
unfoldable pub insert_monitored : Bytes → List Bytes → Db → Option Db
unfolding is_member all_members
insert_monitored uid cpes db =
    if is_member uid db.configurations && all_members cpes db.dictionary
    then some (record db { monitored = db.monitored ++ rows_for uid cpes })
    else none

-- `SELECT COUNT(*) FROM monitored_configurations WHERE uid = ?`
unfoldable pub count_configuration : Bytes → List Bytes → ℕ
unfolding text_eq
count_configuration uid [] = 0
count_configuration uid (u ∷ us) =
    let rest = count_configuration uid us in if text_eq u uid then suc rest else rest

-- `DELETE FROM cpe_monitored WHERE configuration_uid = ?`
unfoldable pub delete_monitored : Bytes → Db → Db
unfolding rows_without
delete_monitored uid db = record db { monitored = rows_without uid db.monitored }

-- `DELETE FROM monitored_configurations WHERE uid = ?`: rows that refer to it go with it.
unfoldable pub delete_configuration : Bytes → Db → Db
unfolding rows_without without
delete_configuration uid db = record db {
  configurations = without uid db.configurations;
  monitored = rows_without uid db.monitored;
  notified = rows_without uid db.notified;
}

-- `SELECT COUNT(*) FROM cves_notified WHERE cve_id=? AND configuration_uid=?`
unfoldable pub count_notified : Bytes → Bytes → List (Bytes × Bytes) → ℕ
unfolding text_eq
count_notified cve uid [] = 0
count_notified cve uid ((c, u) ∷ rows) =
    let rest = count_notified cve uid rows in
    if text_eq c cve && text_eq u uid then suc rest else rest

-- `INSERT INTO cves_notified (cve_id,configuration_uid) VALUES (?,?)`
unfoldable pub insert_notified : Bytes → Bytes → Db → Option Db
unfolding is_member
insert_notified cve uid db =
    if is_member uid db.configurations
    then some (record db { notified = db.notified ++ (cve, uid) ∷ [] })
    else none
