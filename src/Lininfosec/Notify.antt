-- ===== src/Lininfosec/Notify.antt =====
-- cmd/lininfosec/notify.go: what is sent for the configurations that are vulnerable.
--
-- A vulnerability of a configuration is the id of the entry and the name of the configuration. The calls
-- of the database driver are numbered as in Monitor, five for each vulnerability.
use nvdtools.Prelude.{
  ℕ, ◌+◌, Bool, Option, none, some, List, [], ◌∷◌, ◌++◌, Bytes, ◌==◌, if◌then◌else◌,
}
use nvdtools.Wfn.Attributes.{Attributes}
use nvdtools.Lininfosec.Store.{Db, count_notified, insert_notified}
use nvdtools.Lininfosec.Monitor.{Faults}

pub data Filtered : Type 0 where
  sent : List (Bytes × Bytes) → Filtered
  failed panicked : Filtered

abbrev pub prepend : Bytes × Bytes → Db × Filtered → Db × Filtered
prepend v (db, sent vs) = (db, sent (v ∷ vs))
prepend v (db, failed) = (db, failed)
prepend v (db, panicked) = (db, panicked)

-- The insertion and the commit for a vulnerability that is new.
abbrev pub store :
    Bool → Bool → Option Db → Db → Bytes × Bytes → (Db → Db × Filtered) → Db × Filtered
store insert_fails commit_fails none db v onward = (db, failed)
store insert_fails commit_fails (some db') db v onward =
    if insert_fails
    then (db, failed)
    else if commit_fails
    then (db, failed)
    else prepend v (onward db')

-- The transaction of one vulnerability. A failed query closes nil rows, which panics.
abbrev pub one_vuln : Faults → ℕ → Bytes × Bytes → Db → (Db → Db × Filtered) → Db × Filtered
one_vuln fails n (cve, uid) db onward =
    if fails n
    then (db, failed)
    else if fails (n + 1)
    then (db, panicked)
    else if fails (n + 2)
    then (db, failed)
    else if count_notified cve uid db.notified == 0
    then store (fails (n + 3)) (fails (n + 4)) (insert_notified cve uid db) db (cve, uid) onward
    else onward db

-- `filterNotifications`, from the number of a call on
unfoldable pub filter_notifications : Faults → ℕ → List (Bytes × Bytes) → Db → Db × Filtered
unfolding count_notified insert_notified
filter_notifications fails n [] db = (db, sent [])
filter_notifications fails n (v ∷ vulns) db =
    one_vuln fails n v db (λ db'. filter_notifications fails (n + 5) vulns db')

-- The names of a configuration that can be read.
abbrev pub add_name : Option Attributes → List Attributes → List Attributes
add_name none names = names
add_name (some a) names = a ∷ names

abbrev pub read_names : (Bytes → Option Attributes) → List Bytes → List Attributes
read_names parse [] = []
read_names parse (uri ∷ uris) = add_name (parse uri) (read_names parse uris)

abbrev pub vulns_of : Bytes → List Bytes → List (Bytes × Bytes)
vulns_of uid [] = []
vulns_of uid (id ∷ ids) = (id, uid) ∷ vulns_of uid ids

-- `processAll` for one configuration: what each cache returns for its names. A configuration without
-- names is passed over. A cache is a function that gives the ids of the entries that match.
abbrev pub from_caches :
    Bytes → List Attributes → List (List Attributes → List Bytes) → List (Bytes × Bytes)
from_caches uid names [] = []
from_caches uid names (cache ∷ caches) = vulns_of uid (cache names) ++ from_caches uid names caches

unfoldable pub process :
    (Bytes → Option Attributes)
    → List (List Attributes → List Bytes)
    → List Bytes
    → List (Bytes × Bytes)
process parse caches [] = []
process parse caches (uid ∷ []) = []
process parse caches (uid ∷ cpe ∷ cpes) = from_caches uid (read_names parse (cpe ∷ cpes)) caches
