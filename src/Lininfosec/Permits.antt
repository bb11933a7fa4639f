-- ===== src/Lininfosec/Permits.antt =====
-- cmd/lininfosec/monitor.go: which operations end without an error, where no call of the database fails.
use nvdtools.Prelude.{
  ◌≤◌, Bool, true, false, not, ◌&&◌, ◌↔◌, List, [], ◌∷◌, ◌++◌, Bytes, text_eq_refl, ◌≡◌, refl, sym,
  ap, ◌∙◌, arith, Bool-cases, inl, inr, ◌==◌,
}
use nvdtools.Lininfosec.Store.{
  Db, is_member, all_members, count_configuration, insert_configuration, insert_monitored,
  delete_monitored,
}
use nvdtools.Lininfosec.Monitor.{
  Outcome, done, require_cpe, internal_error, does_not_exist, database_error, panicked,
  add_configuration, update_configuration, delete_monitoring,
}
use nvdtools.Lininfosec.Rows.{absent-count, text_eq-swap, is_member-append}
use nvdtools.Lininfosec.Table.{Op, adds, updates, deletes, run, Integrity}
use nvdtools.Lininfosec.Refines.{never}

abbrev is_done : Outcome → Bool
is_done done = true
is_done other = false

-- A list of URIs that the dictionary holds, and not the empty one.
abbrev pub listed : List Bytes → Db → Bool
listed [] db = false
listed (x ∷ xs) db = all_members (x ∷ xs) db.dictionary

abbrev pub allowed : Op → Db → Bool
allowed (adds conf) db = listed conf.cpes db && not (is_member conf.name db.configurations)
allowed (updates conf) db = listed conf.cpes db && is_member conf.name db.configurations
allowed (deletes uid) db = is_member uid db.configurations

member-counted :
    (u : Bytes) (us : List Bytes) → is_member u us ≡ true → 1 ≤ count_configuration u us
unfolding is_member count_configuration
member-counted u [] e = cc
member-counted u (v ∷ us) e = ground (arith, text_eq-swap u v, member-counted u us)

member_is_counted :
    (u : Bytes) (db : Db)
    → Integrity db
    → (count_configuration u db.configurations == 1) ≡ is_member u db.configurations
member_is_counted u db i = elim (Bool-cases (is_member u db.configurations)) [
  | inl e ↦ ground (arith, i.once u, member-counted u db.configurations)
  | inr e ↦ ground (arith, absent-count u db.configurations)
]

added_is_member : (u : Bytes) (us : List Bytes) → is_member u (us ++ u ∷ []) ≡ true
added_is_member u us = is_member-append u u us ∙ ground (arith, text_eq_refl u)

ends : (op : Op) (db : Db) → Integrity db → is_done (run never op db).1 ≡ allowed op db
ends (adds conf) db i = of_list conf.cpes
  where
    of_list :
        (cpes : List Bytes)
        → is_done (add_configuration never (record { name = conf.name; cpes = cpes }) db).1
          ≡ (listed cpes db && not (is_member conf.name db.configurations))
    of_list [] = unfold add_configuration in refl
    of_list (x ∷ xs) =
        unfold add_configuration insert_configuration insert_monitored in
        elim (Bool-cases (is_member conf.name db.configurations)) [
          | inl e ↦ elim (Bool-cases (all_members (x ∷ xs) db.dictionary)) [
            | inl f ↦ rw (e, f) refl
            | inr f ↦ rw (e, f) refl
          ]
          | inr e ↦ elim (Bool-cases (all_members (x ∷ xs) db.dictionary)) [
            | inl f ↦ rw (e, f, added_is_member conf.name db.configurations) refl
            | inr f ↦ rw (e, f, added_is_member conf.name db.configurations) refl
          ]
        ]
ends (updates conf) db i = of_list conf.cpes
  where
    of_list :
        (cpes : List Bytes)
        → is_done (update_configuration never (record { name = conf.name; cpes = cpes }) db).1
          ≡ (listed cpes db && is_member conf.name db.configurations)
    of_list [] = unfold update_configuration in refl
    of_list (x ∷ xs) =
        unfold update_configuration insert_monitored delete_monitored in
        elim (Bool-cases (is_member conf.name db.configurations)) [
          | inl e ↦ elim (Bool-cases (all_members (x ∷ xs) db.dictionary)) [
            | inl f ↦ rw (member_is_counted conf.name db i, e, f) refl
            | inr f ↦ rw (member_is_counted conf.name db i, e, f) refl
          ]
          | inr e ↦ elim (Bool-cases (all_members (x ∷ xs) db.dictionary)) [
            | inl f ↦ rw (member_is_counted conf.name db i, e, f) refl
            | inr f ↦ rw (member_is_counted conf.name db i, e, f) refl
          ]
        ]
ends (deletes uid) db i =
    unfold delete_monitoring in
    elim (Bool-cases (is_member uid db.configurations)) [
      | inl e ↦ rw (member_is_counted uid db i, e) refl
      | inr e ↦ rw (member_is_counted uid db i, e) refl
    ]

done-is_done : (o : Outcome) → is_done o ≡ true → o ≡ done
done-is_done done e = refl
done-is_done require_cpe e = cc
done-is_done internal_error e = cc
done-is_done does_not_exist e = cc
done-is_done database_error e = cc
done-is_done panicked e = cc

-- Where no call of the database fails and the database has integrity, an operation ends without an error
-- if and only if it adds a configuration that is not there or changes or removes one that is, and the
-- URIs that it writes are in the dictionary and at least one.
pub run-done_iff :
    (op : Op) (db : Db) → Integrity db → ((run never op db).1 ≡ done) ↔ (allowed op db ≡ true)
run-done_iff op db i = (
  λ e. sym (ends op db i) ∙ ap is_done e,
  λ e. done-is_done (run never op db).1 (ends op db i ∙ e),
)
