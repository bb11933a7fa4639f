-- ===== src/Lininfosec/Effects.antt =====
-- cmd/lininfosec/monitor.go: what the statements of an operation do to the map of the specification.
use nvdtools.Prelude.{
  ◌+◌, ◌≤◌, true, false, ◌&&◌, none, some, List, [], ◌∷◌, ◌++◌, Bytes, if◌then◌else◌, text_eq,
  text_eq_iff, ◌≡◌, refl, sym, ap, ap₂, append-nil, subst, ◌∙◌, arith, Bool-cases, inl, inr, ◌==◌,
}
use nvdtools.Lininfosec.Store.{
  Db, is_member, all_members, rows_without, rows_of, rows_for, count_configuration,
  insert_configuration, insert_monitored, delete_monitored, delete_configuration,
}
use nvdtools.Lininfosec.Monitor.{Configuration}
use nvdtools.Lininfosec.Rows.{
  is_member-append, count_configuration-append, absent-count, counted-member, is_member-without,
  count_configuration-without, rows_of-append, rows_of-rows_for, rows_of-rows_without, text_eq-swap,
}
use nvdtools.Lininfosec.Table.{adds, updates, deletes, Integrity, Made}

module _ (uid : Bytes) (db db1 : Db) where
  insert_configuration-rows :
      insert_configuration uid db ≡ some db1
      → (is_member uid db.configurations ≡ false)
        × (db1.configurations ≡ db.configurations ++ uid ∷ [])
        × (db1.monitored ≡ db.monitored)
  unfolding insert_configuration
  insert_configuration-rows e = elim (Bool-cases (is_member uid db.configurations)) [
    | inl k ↦ let none_here : none ≡ some db1 = rw k at e in cc
    | inr k ↦
        let same : some (record db { configurations = db.configurations ++ uid ∷ [] }) ≡ some db1 =
          rw k at e in
        let rows : record db { configurations = db.configurations ++ uid ∷ [] } ≡ db1 = cc in
        (k, sym (ap (λ x. x.configurations) rows), sym (ap (λ x. x.monitored) rows))
  ]

  insert_monitored-rows :
      (cpes : List Bytes)
      → insert_monitored uid cpes db ≡ some db1
      → (db1.configurations ≡ db.configurations)
        × (db1.monitored ≡ db.monitored ++ rows_for uid cpes)
  unfolding insert_monitored
  insert_monitored-rows cpes e =
      elim (Bool-cases (is_member uid db.configurations && all_members cpes db.dictionary)) [
        | inr k ↦ let none_here : none ≡ some db1 = rw k at e in cc
        | inl k ↦
            let same : some (record db { monitored = db.monitored ++ rows_for uid cpes })
                ≡ some db1 =
              rw k at e in
            let rows : record db { monitored = db.monitored ++ rows_for uid cpes } ≡ db1 = cc in
            (sym (ap (λ x. x.configurations) rows), sym (ap (λ x. x.monitored) rows))
      ]

-- The rows of each configuration after those of one were replaced.
replaced :
    (u uid : Bytes) (cpes : List Bytes) (rows : List (Bytes × Bytes))
    → rows_of u (rows_without uid rows ++ rows_for uid cpes)
      ≡ (if text_eq uid u then cpes else rows_of u rows)
replaced u uid cpes rows =
    let a = rows_of-append u (rows_without uid rows) (rows_for uid cpes) in
    let b = rows_of-rows_without u uid rows in
    let c = rows_of-rows_for u uid cpes in
    elim (Bool-cases (text_eq uid u)) [
      | inl e ↦ a ∙ ap₂ ◌++◌ (rw e at b) (rw e at c) ∙ rw e refl
      | inr e ↦ a ∙ ap₂ ◌++◌ (rw e at b) (rw e at c) ∙ append-nil (rows_of u rows) ∙ rw e refl
    ]

pub update-Made :
    (conf : Configuration) (db db1 : Db)
    → Integrity db
    → (count_configuration conf.name db.configurations == 1) ≡ true
    → insert_monitored conf.name conf.cpes (delete_monitored conf.name db) ≡ some db1
    → Made (updates conf) db db1
unfolding delete_monitored
update-Made conf db db1 i k e =
    let (a, b) = insert_monitored-rows conf.name (delete_monitored conf.name db) db1 conf.cpes e in
    let there = counted-member conf.name db.configurations k in
    let rows : (u : Bytes)
        → rows_of u db1.monitored
          ≡ (if text_eq conf.name u then conf.cpes else rows_of u db.monitored) =
      λ u. ap (rows_of u) b ∙ replaced u conf.name conf.cpes db.monitored in
    record {
      whole = record {
        once = λ u. subst (λ x. count_configuration u x ≤ 1) (sym a) (i.once u);
        owned = λ u absent.
            let gone : is_member u db.configurations ≡ false = sym (ap (is_member u) a) ∙ absent in
            elim (Bool-cases (text_eq conf.name u)) [
              | inl same ↦
                  let here : is_member u db.configurations ≡ true =
                    sym (ap (λ x. is_member x db.configurations) ((text_eq_iff conf.name u).0 same))
                    ∙ there in
                  cc
              | inr other ↦ rows u ∙ rw other (i.owned u gone)
            ];
      };
      expected = there;
      seen = λ u. elim (Bool-cases (text_eq conf.name u)) [
        | inl same ↦
            let here : is_member u db.configurations ≡ true =
              sym (ap (λ x. is_member x db.configurations) ((text_eq_iff conf.name u).0 same))
              ∙ there in
            rw (a, here, rows u, same) refl
        | inr other ↦ rw (a, rows u, other) refl
      ];
    }

pub add-Made :
    (conf : Configuration) (db db1 db2 : Db)
    → Integrity db
    → insert_configuration conf.name db ≡ some db1
    → insert_monitored conf.name conf.cpes db1 ≡ some db2
    → Made (adds conf) db db2
add-Made conf db db1 db2 i e f =
    let (absent, a, b) = insert_configuration-rows conf.name db db1 e in
    let (c, d) = insert_monitored-rows conf.name db1 db2 conf.cpes f in
    let confs : db2.configurations ≡ db.configurations ++ conf.name ∷ [] = c ∙ a in
    let member : (u : Bytes)
        → is_member u db2.configurations
          ≡ (if is_member u db.configurations then true else text_eq u conf.name) =
      λ u. ap (is_member u) confs ∙ is_member-append u conf.name db.configurations in
    let rows : (u : Bytes)
        → rows_of u db2.monitored
          ≡ rows_of u db.monitored ++ (if text_eq conf.name u then conf.cpes else []) =
      λ u.
        ap (rows_of u) (d ∙ ap (λ x. x ++ rows_for conf.name conf.cpes) b)
        ∙ rows_of-append u db.monitored (rows_for conf.name conf.cpes)
        ∙ ap (◌++◌ (rows_of u db.monitored)) (rows_of-rows_for u conf.name conf.cpes) in
    record {
      whole = record {
        once = λ u.
            let n : count_configuration u db2.configurations
                ≡ count_configuration u db.configurations + (if text_eq conf.name u then 1 else 0) =
              ap (count_configuration u) confs
              ∙ count_configuration-append u conf.name db.configurations in
            elim (Bool-cases (text_eq conf.name u)) [
              | inl same ↦
                  let gone : is_member u db.configurations ≡ false =
                    subst (λ x. is_member x db.configurations ≡ false)
                      ((text_eq_iff conf.name u).0 same) absent in
                  omega (arith, rw same at n, absent-count u db.configurations gone)
              | inr other ↦ omega (arith, rw other at n, i.once u)
            ];
        owned = λ u missing.
            let m = member u in
            let swapped = text_eq-swap conf.name u in
            let old : is_member u db.configurations ≡ false = ground arith in
            let other : text_eq conf.name u ≡ false = ground arith in
            rows u ∙ rw other (append-nil (rows_of u db.monitored)) ∙ i.owned u old;
      };
      expected = rw absent refl;
      seen = λ u. elim (Bool-cases (text_eq conf.name u)) [
        | inl same ↦
            let gone : is_member u db.configurations ≡ false =
              subst (λ x. is_member x db.configurations ≡ false) ((text_eq_iff conf.name u).0 same)
                absent in
            let swapped : text_eq u conf.name ≡ true = sym (text_eq-swap conf.name u) ∙ same in
            rw (member u, rows u, gone, swapped, same, i.owned u gone) refl
        | inr other ↦
            let swapped : text_eq u conf.name ≡ false = sym (text_eq-swap conf.name u) ∙ other in
            let m : is_member u db2.configurations ≡ is_member u db.configurations =
              member u ∙ rw swapped (ground arith) in
            rw (m, rows u, other, append-nil (rows_of u db.monitored)) refl
      ];
    }

pub delete-Made :
    (uid : Bytes) (db : Db)
    → Integrity db
    → (count_configuration uid db.configurations == 1) ≡ true
    → Made (deletes uid) db (delete_configuration uid (delete_monitored uid db))
unfolding delete_monitored delete_configuration
delete-Made uid db i k =
    let rows : (u : Bytes)
        → rows_of u (rows_without uid (rows_without uid db.monitored))
          ≡ (if text_eq uid u then [] else rows_of u db.monitored) =
      λ u.
        rows_of-rows_without u uid (rows_without uid db.monitored)
        ∙ ap (λ x. if text_eq uid u then [] else x) (rows_of-rows_without u uid db.monitored)
        ∙ ground arith in
    record {
      whole = record {
        once = λ u. omega (arith, count_configuration-without u uid db.configurations, i.once u);
        owned = λ u missing.
            let m = is_member-without u uid db.configurations in
            let swapped = text_eq-swap uid u in
            elim (Bool-cases (text_eq uid u)) [
              | inl same ↦ rows u ∙ rw same refl
              | inr other ↦
                  let old : is_member u db.configurations ≡ false = ground arith in
                  rows u ∙ rw other (i.owned u old)
            ];
      };
      expected = counted-member uid db.configurations k;
      seen = λ u. elim (Bool-cases (text_eq uid u)) [
        | inl same ↦
            let swapped : text_eq u uid ≡ true = sym (text_eq-swap uid u) ∙ same in
            rw (is_member-without u uid db.configurations, swapped, same) refl
        | inr other ↦
            let swapped : text_eq u uid ≡ false = sym (text_eq-swap uid u) ∙ other in
            rw (is_member-without u uid db.configurations, swapped, rows u, other) refl
      ];
    }
