-- ===== src/Redhat/Upgrade.antt =====
-- providers/redhat/check: what is fixed stays fixed when a package gets newer.
use nvdtools.Prelude.{
  Bool, true, false, not, Option, none, some, List, [], ◌∷◌, Bytes, is_empty, text_eq,
  if◌then◌else◌, Ordering, Chain, All, All-append, subst, ◌≡◌, ◌≢◌, refl, sym, ap, ◌∙◌, Bool-cases,
  inl, inr, ◌&&◌,
}
use nvdtools.Wfn.Attributes.{Attributes, any}
use nvdtools.Rpm.Compare.{label_compare}
use nvdtools.Rpm.Order.{label_compare-flip, label_compare_trans}
use nvdtools.Rpm.Parse.{Package}
use nvdtools.Rpm.Checker.{Checker, check_any}
use nvdtools.Redhat.Check.{
  PkgCheck, constant, package_state, affected_release, is_older, differ, check_pkg, single_check,
  AffectedRelease, PackageState, Cve, release_pkg_check, state_pkg_check, add_checker, cve_check,
  unless_empty, append_checkers, is_fixed, affected_release_checkers, package_state_checkers,
  cve_checker,
}

-- A package of the same name and architecture that is not older.
pub record Upgrade (p q : Package) : Type 0 where
  pub same_name : p.name ≡ q.name
  pub same_arch : p.arch ≡ q.arch
  pub not_newer : label_compare p.label q.label ≢ some Ordering.gt

-- If `a` is not newer than `b` and not older than `c`, then `b` is not older than `c`.
not_before_last :
    (r s t : Ordering)
    → r ≢ Ordering.gt
    → Chain r s t
    → is_older (some t) ≡ false
    → is_older (some s) ≡ false
not_before_last r Ordering.gt t n c h = refl
not_before_last r Ordering.eq t n c h = refl
not_before_last Ordering.lt Ordering.lt t n c h = rw c at h
not_before_last Ordering.eq Ordering.lt t n c h = rw c at h
not_before_last Ordering.gt Ordering.lt t n c h = absurd (n refl)

not_before_newer :
    (p q c : Package)
    → Upgrade p q
    → is_older (label_compare p.label c.label) ≡ false
    → is_older (label_compare q.label c.label) ≡ false
not_before_newer p q c u h =
    let (r, e, _, _) = label_compare-flip p.label q.label in
    let (s, f, _, _) = label_compare-flip q.label c.label in
    let (t, g, chain) = label_compare_trans p.label q.label c.label r s e f in
    rw f (not_before_last r s t (λ k. u.not_newer (e ∙ ap some k)) chain (rw g at h))

check_pkg-Upgrade :
    (pc : PkgCheck) (p q : Package) → Upgrade p q → check_pkg pc p ≡ true → check_pkg pc q ≡ true
unfolding check_pkg
check_pkg-Upgrade (constant b) p q u h = h
check_pkg-Upgrade (package_state name) p q u h = rw u.same_name at h
check_pkg-Upgrade (affected_release c) p q u h = elim (Bool-cases (differ c.name p.name)) [
  | inl k ↦ let no : false ≡ true = rw k at h in cc
  | inr k ↦ elim (Bool-cases (differ c.arch p.arch)) [
    | inl j ↦ let no : false ≡ true = rw (k, j) at h in cc
    | inr j ↦
        let name : differ c.name q.name ≡ false = ap (differ c.name) (sym u.same_name) ∙ k in
        let arch : differ c.arch q.arch ≡ false = ap (differ c.arch) (sym u.same_arch) ∙ j in
        let held : not (is_older (label_compare p.label c.label)) ≡ true = rw (k, j) at h in
        rw
          (
            name,
            arch,
            not_before_newer p q c u (unnot (is_older (label_compare p.label c.label)) held),
          )
          refl
  ]
]
  where
    unnot : (b : Bool) → not b ≡ true → b ≡ false
    unnot true h = cc
    unnot false h = refl

-- A checker that holds of an upgrade what it holds of a package.
abbrev pub Lasting : Checker → Type 0
Lasting chk =
    (p q : Package) (distro : Option Attributes) (cve : Bytes)
    → Upgrade p q
    → chk (some p) distro cve ≡ true
    → chk (some q) distro cve ≡ true

single_check-Lasting :
    (config : Option Attributes) (pc : PkgCheck) → Lasting (single_check config pc)
unfolding single_check
single_check-Lasting config pc p q distro cve u h = elim (Bool-cases (check_pkg pc p)) [
  | inl k ↦ rw (check_pkg-Upgrade pc p q u k) (rw k at h)
  | inr k ↦ let no : false ≡ true = rw k at h in cc
]

check_any-Lasting : (chks : List Checker) → All Lasting chks → Lasting (check_any chks)
check_any-Lasting [] a p q distro cve u h = h
check_any-Lasting (chk ∷ chks) (l, a) p q distro cve u h =
    elim (Bool-cases (chk (some q) distro cve)) [
      | inl k ↦ rw k refl
      | inr k ↦ elim (Bool-cases (chk (some p) distro cve)) [
        | inl j ↦ let no : chk (some q) distro cve ≡ true = l p q distro cve u j in cc
        | inr j ↦ rw k (check_any-Lasting chks a p q distro cve u (rw j at h))
      ]
    ]

abbrev from_some : Checker → Option Checker → Checker
from_some d none = d
from_some d (some chk) = chk

-- The same of checkers that may not be there.
abbrev LastingList : Option (List Checker) → Type 0
LastingList none = Unit
LastingList (some chks) = All Lasting chks

add_checker-Lasting :
    (d : Option Attributes) (pc : PkgCheck) (rest : Option (List Checker))
    → LastingList rest
    → LastingList (add_checker d pc rest)
add_checker-Lasting none pc rest l = tt
add_checker-Lasting (some d) pc none l = tt
add_checker-Lasting (some d) pc (some chks) l =
    (single_check-Lasting (some (record d { part = any })) pc, l)

if-LastingList :
    (b : Bool) (x y : Option (List Checker))
    → LastingList x
    → LastingList y
    → LastingList (if b then x else y)
if-LastingList true x y l m = l
if-LastingList false x y l m = m

append-LastingList :
    (a b : Option (List Checker))
    → LastingList a
    → LastingList b
    → LastingList (append_checkers a b)
append-LastingList none b l m = tt
append-LastingList (some a) none l m = tt
append-LastingList (some a) (some b) l m = All-append Lasting a b l m

module _ (parse_name : Bytes → Option Attributes) where
  affected_release-Lasting :
      (ars : List AffectedRelease) → LastingList (affected_release_checkers parse_name ars)
  unfolding affected_release_checkers
  affected_release-Lasting [] = tt
  affected_release-Lasting (ar ∷ ars) =
      let rest = affected_release_checkers parse_name ars in
      if-LastingList (is_empty ar.cpe) rest
        (add_checker (parse_name ar.cpe) (release_pkg_check ar.pkg) rest)
        (affected_release-Lasting ars)
        (add_checker-Lasting (parse_name ar.cpe) (release_pkg_check ar.pkg) rest
          (affected_release-Lasting ars))

  package_state-Lasting :
      (pss : List PackageState) → LastingList (package_state_checkers parse_name pss)
  unfolding package_state_checkers
  package_state-Lasting [] = tt
  package_state-Lasting (ps ∷ pss) =
      let rest = package_state_checkers parse_name pss in
      let added = add_checker (parse_name ps.cpe) (state_pkg_check ps.package_name) rest in
      let held = package_state-Lasting pss in
      if-LastingList (not (is_empty ps.fix_state) && not (is_fixed ps.fix_state)) rest
        (if is_empty ps.cpe then rest else added) held
        (if-LastingList (is_empty ps.cpe) rest added held
          (add_checker-Lasting (parse_name ps.cpe) (state_pkg_check ps.package_name) rest held))

  cve_check-Lasting :
      (name : Bytes) (chks : List Checker) → All Lasting chks → Lasting (cve_check name chks)
  unfolding cve_check
  cve_check-Lasting name chks a p q distro cve u h = elim (Bool-cases (text_eq cve name)) [
    | inl k ↦ rw k (check_any-Lasting chks a p q distro cve u (rw k at h))
    | inr k ↦ let no : false ≡ true = rw k at h in cc
  ]

  -- If the checker of an entry says that a package is fixed, it says so of every package of the same
  -- name and architecture that is not older.
  pub cve_checker-Upgrade :
      (entry : Cve) (chk : Checker) (p q : Package) (distro : Option Attributes) (cve : Bytes)
      → cve_checker parse_name entry ≡ some chk
      → Upgrade p q
      → chk (some p) distro cve ≡ true
      → chk (some q) distro cve ≡ true
  unfolding cve_checker
  cve_checker-Upgrade entry chk p q distro cve e u h =
      from
        (append_checkers (affected_release_checkers parse_name entry.affected_release)
          (package_state_checkers parse_name entry.package_state))
        (append-LastingList (affected_release_checkers parse_name entry.affected_release)
          (package_state_checkers parse_name entry.package_state)
          (affected_release-Lasting entry.affected_release)
          (package_state-Lasting entry.package_state))
        e
    where
      from :
          (o : Option (List Checker))
          → LastingList o
          → unless_empty entry.name o ≡ some chk
          → chk (some q) distro cve ≡ true
      from none l e = cc
      from (some []) l e = cc
      from (some (c ∷ cs)) l e =
          let same : cve_check entry.name (c ∷ cs) ≡ chk = ap (from_some chk) e in
          subst (λ (k : Checker). k (some p) distro cve ≡ true → k (some q) distro cve ≡ true) same
            (cve_check-Lasting entry.name (c ∷ cs) l p q distro cve u) h
