-- ===== src/Samples/Lininfosec.antt =====
-- The service that monitors configurations, at concrete inputs.
use nvdtools.Prelude.{
  ℕ, ltb, ◌≤◌, ◌<◌, true, false, ◌↔◌, ◌⊎◌, inl, List, [], ◌∷◌, ◌++◌, Bytes, ◌==◌, codes, ◌≡◌, refl,
  arith,
}
use nvdtools.Lininfosec.Store.{
  Db, count_notified, count_configuration, all_members, is_member, rows_of,
}
use nvdtools.Lininfosec.Monitor.{
  Configuration, done, found, update_configuration, get_configuration,
}
use nvdtools.Lininfosec.Notify.{failed, filter_notifications}
use nvdtools.Lininfosec.Once.{Counted, filter_notifications-Counted}
use nvdtools.Lininfosec.Pipeline.{
  Pipe, start, Step, feeds, takes, sends, receives, appends, Reach, at_start, and_then, Read,
}
use nvdtools.Lininfosec.Progress.{work, reach-Read, Read-lacks}
use nvdtools.Lininfosec.Table.{updates, run, Meets, Integrity}
use nvdtools.Lininfosec.Refines.{run-Meets, get_configuration-run, never}
use nvdtools.Lininfosec.Permits.{run-done_iff}

abbrev db : Db
db = record {
  dictionary = codes "cpe:/a:b" ∷ codes "cpe:/a:c" ∷ [];
  configurations = codes "web" ∷ [];
  monitored = (codes "cpe:/a:b", codes "web") ∷ [];
  notified = (codes "CVE-1", codes "web") ∷ [];
}

abbrev web : Configuration
web = record { name = codes "web"; cpes = codes "cpe:/a:c" ∷ [] }

abbrev web_changed : Db
web_changed = record db { monitored = (codes "cpe:/a:c", codes "web") ∷ [] }

db-Integrity : Integrity db
db-Integrity = record { once = at_most_once; owned = rows_owned }
  where
    at_most_once : (u : Bytes) → count_configuration u (codes "web" ∷ []) ≤ 1
    at_most_once u = unfold count_configuration in ground arith

    rows_owned :
        (u : Bytes)
        → is_member u (codes "web" ∷ []) ≡ false
        → rows_of u ((codes "cpe:/a:b", codes "web") ∷ []) ≡ []
    rows_owned u e = unfold is_member rows_of in ground arith

run-Meets_example : Meets (updates web) db (web_changed, done)
unfolding update_configuration
run-Meets_example = run-Meets never (updates web) db db-Integrity

run-done_iff_example : ((run never (updates web) db).1 ≡ done) ↔ (true ≡ true)
unfolding all_members
run-done_iff_example = run-done_iff (updates web) db db-Integrity

get_configuration-run_example :
    get_configuration never (codes "web") web_changed ≡ found (codes "cpe:/a:c" ∷ [])
unfolding update_configuration
get_configuration-run_example =
    get_configuration-run never (updates web) db web_changed (codes "web") db-Integrity refl

abbrev found_twice : List (Bytes × Bytes)
found_twice =
    (codes "CVE-2", codes "web") ∷ (codes "CVE-1", codes "web") ∷ (codes "CVE-2", codes "web") ∷ []

filter_notifications-Counted_example :
    Counted (codes "CVE-2") (codes "web") 2 db (filter_notifications never 0 found_twice db)
unfolding count_notified
filter_notifications-Counted_example =
    filter_notifications-Counted never 0 found_twice db (codes "CVE-2") (codes "web")

-- What a run stores before it fails is not sent, then or later.
stored_not_sent :
    filter_notifications
      (λ n. n == 5)
      0
      ((codes "CVE-2", codes "web") ∷ (codes "CVE-3", codes "web") ∷ [])
      db
    ≡ (
      record db { notified = (codes "CVE-1", codes "web") ∷ (codes "CVE-2", codes "web") ∷ [] },
      failed,
    )
unfolding filter_notifications
stored_not_sent = refl

abbrev one_sent : Pipe
one_sent = record {
  pending = [];
  queue = [];
  workers = 0 ∷ 0 ∷ 0 ∷ 0 ∷ [];
  out = 1;
  hand = 0;
  res = 0;
}

-- A vulnerability that is sent, and not received when the result is read.
one_sent-Reach : Reach (start (1 ∷ [])) one_sent
unfolding start
one_sent-Reach =
    and_then
      (and_then (and_then at_start (feeds 1 [] refl (omega arith)))
        (takes 1 [] [] (0 ∷ 0 ∷ 0 ∷ []) refl refl))
      (sends 0 [] (0 ∷ 0 ∷ 0 ∷ []) refl (omega arith))

Read-lacks_example : (0 ≤ 1) × (1 ≤ 5)
Read-lacks_example = Read-lacks (1 ∷ []) one_sent one_sent-Reach (refl, refl, refl)

reach-Read_example :
    (Read one_sent ⊎ ((t : Pipe) × Step one_sent t))
    × ((t : Pipe) → Step one_sent t → work t < work one_sent)
reach-Read_example = reach-Read (1 ∷ []) one_sent one_sent-Reach (inl refl)

-- Eight vulnerabilities are found, and a configuration is not handed over.
abbrev stuck : Pipe
stuck = record {
  pending = 0 ∷ [];
  queue = 0 ∷ 0 ∷ 0 ∷ 0 ∷ [];
  workers = 1 ∷ 1 ∷ 1 ∷ 1 ∷ [];
  out = 4;
  hand = 0;
  res = 0;
}

below : (a b : ℕ) → ltb a b ≡ true → a < b
below a b e = ground arith

-- It is reached, and there is no step from it.
stuck-Reach : Reach (start (5 ∷ 1 ∷ 1 ∷ 1 ∷ 0 ∷ 0 ∷ 0 ∷ 0 ∷ 0 ∷ [])) stuck
unfolding start
stuck-Reach =
    let a =
      and_then at_start (feeds 5 (1 ∷ 1 ∷ 1 ∷ 0 ∷ 0 ∷ 0 ∷ 0 ∷ 0 ∷ []) refl (below 0 4 refl)) in
    let b = and_then a (takes 5 [] [] (0 ∷ 0 ∷ 0 ∷ []) refl refl) in
    let c = and_then b (sends 4 [] (0 ∷ 0 ∷ 0 ∷ []) refl (below 0 4 refl)) in
    let d = and_then c (sends 3 [] (0 ∷ 0 ∷ 0 ∷ []) refl (below 1 4 refl)) in
    let e = and_then d (sends 2 [] (0 ∷ 0 ∷ 0 ∷ []) refl (below 2 4 refl)) in
    let f = and_then e (sends 1 [] (0 ∷ 0 ∷ 0 ∷ []) refl (below 3 4 refl)) in
    let g = and_then f (feeds 1 (1 ∷ 1 ∷ 0 ∷ 0 ∷ 0 ∷ 0 ∷ 0 ∷ []) refl (below 0 4 refl)) in
    let h = and_then g (takes 1 [] (1 ∷ []) (0 ∷ 0 ∷ []) refl refl) in
    let i = and_then h (feeds 1 (1 ∷ 0 ∷ 0 ∷ 0 ∷ 0 ∷ 0 ∷ []) refl (below 0 4 refl)) in
    let j = and_then i (takes 1 [] (1 ∷ 1 ∷ []) (0 ∷ []) refl refl) in
    let k = and_then j (feeds 1 (0 ∷ 0 ∷ 0 ∷ 0 ∷ 0 ∷ []) refl (below 0 4 refl)) in
    let l = and_then k (takes 1 [] (1 ∷ 1 ∷ 1 ∷ []) [] refl refl) in
    let m = and_then l (feeds 0 (0 ∷ 0 ∷ 0 ∷ 0 ∷ []) refl (below 0 4 refl)) in
    let n = and_then m (feeds 0 (0 ∷ 0 ∷ 0 ∷ []) refl (below 1 4 refl)) in
    let o = and_then n (feeds 0 (0 ∷ 0 ∷ []) refl (below 2 4 refl)) in
    and_then o (feeds 0 (0 ∷ []) refl (below 3 4 refl))

stuck_blocked : (t : Pipe) → Step stuck t → false ≡ true
stuck_blocked t (feeds n ns e room) = absurd (omega (arith, room))
stuck_blocked t (sends n before behind e room) = absurd (omega (arith, room))
stuck_blocked t (receives n e f g) = cc
stuck_blocked t (appends e) = cc
stuck_blocked t (takes n ns before behind e f) = no_zero before f
  where
    no_zero : (before : List ℕ) → 1 ∷ 1 ∷ 1 ∷ 1 ∷ [] ≡ before ++ 0 ∷ behind → false ≡ true
    no_zero [] f = cc
    no_zero (a ∷ []) f = cc
    no_zero (a ∷ b ∷ []) f = cc
    no_zero (a ∷ b ∷ c ∷ []) f = cc
    no_zero (a ∷ b ∷ c ∷ d ∷ []) f = cc
    no_zero (a ∷ b ∷ c ∷ d ∷ x ∷ before) f = cc
