-- ===== src/Redhat/Check.antt =====
-- providers/redhat/check: the checkers that an entry of Red Hat stands for.
--
-- `parse_name` is `wfn.Parse`. A comparison of labels always answers, so that what `is_older` makes of
-- no answer is never used.
use nvdtools.Prelude.{
  ℕ, leb, ◌==◌, Bool, true, false, not, ◌&&◌, ◌||◌, Option, none, some, List, [], ◌∷◌, ◌++◌, Bytes,
  is_empty, text_eq, codes, if◌then◌else◌, Ordering,
}
use nvdtools.Wfn.Attributes.{Attributes, any}
use nvdtools.Wfn.Matching.{match}
use nvdtools.Rpm.Compare.{label_compare}
use nvdtools.Rpm.Parse.{Package, Result, ok, err, parse, to_lower}
use nvdtools.Rpm.Checker.{Checker, check_any}

-- `strings.TrimSpace` on ASCII text
abbrev pub is_space : ℕ → Bool
is_space c = (leb 9 c && leb c 13) || (c == 32)

abbrev pub trim_left : Bytes → Bytes
trim_left [] = []
trim_left (c ∷ s) = if is_space c then trim_left s else c ∷ s

-- A byte in front of a text without its last spaces.
abbrev pub keep_byte : ℕ → Bytes → Bytes
keep_byte c [] = if is_space c then [] else c ∷ []
keep_byte c (d ∷ s) = c ∷ d ∷ s

abbrev pub trim_right : Bytes → Bytes
trim_right [] = []
trim_right (c ∷ s) = keep_byte c (trim_right s)

-- `schema.IsFixed`: all states but this one are not fixed.
unfoldable pub is_fixed : Bytes → Bool
unfolding text_eq to_lower
is_fixed state = text_eq (trim_right (trim_left (to_lower state))) (codes "not affected")

-- `constPkgChecker`, `packageStatePkgChecker` and `affectedReleasePkgChecker`
pub data PkgCheck : Type 0 where
  constant : Bool → PkgCheck
  package_state : Bytes → PkgCheck
  affected_release : Package → PkgCheck

abbrev pub is_older : Option Ordering → Bool
is_older none = false
is_older (some Ordering.lt) = true
is_older (some Ordering.eq) = false
is_older (some Ordering.gt) = false

-- Two texts that are both given and not the same.
unfoldable pub differ : Bytes → Bytes → Bool
unfolding text_eq
differ a b = not (is_empty a) && not (is_empty b) && not (text_eq a b)

unfoldable pub check_pkg : PkgCheck → Package → Bool
unfolding differ label_compare text_eq
check_pkg (constant b) pkg = b
check_pkg (package_state name) pkg = text_eq pkg.name name
check_pkg (affected_release c) pkg =
    if differ c.name pkg.name
    then false
    else if differ c.arch pkg.arch
    then false
    else not (is_older (label_compare pkg.label c.label))

abbrev pub distro_matches : Option Attributes → Option Attributes → Bool
distro_matches none config = true
distro_matches (some d) none = true
distro_matches (some d) (some config) = match d config

-- `singleChecker.Check`
unfoldable pub single_check : Option Attributes → PkgCheck → Checker
unfolding check_pkg match
single_check config pc none distro cve = false
single_check config pc (some pkg) distro cve =
    if check_pkg pc pkg then distro_matches distro config else false

pub record AffectedRelease : Type 0 where
  pub pkg : Bytes
  pub cpe : Bytes

pub record PackageState : Type 0 where
  pub fix_state : Bytes
  pub package_name : Bytes
  pub cpe : Bytes

pub record Cve : Type 0 where
  pub name : Bytes
  pub affected_release : List AffectedRelease
  pub package_state : List PackageState

abbrev pub release_check : Result Package → PkgCheck
release_check (ok p) = affected_release p
release_check (err e) = constant true

abbrev pub release_pkg_check : Bytes → PkgCheck
release_pkg_check [] = constant true
release_pkg_check (c ∷ s) = release_check (parse ((c ∷ s) ++ codes ".src"))

abbrev pub state_pkg_check : Bytes → PkgCheck
state_pkg_check [] = constant true
state_pkg_check (c ∷ s) = package_state (c ∷ s)

-- A checker in front of the others, unless the name of the distribution cannot be read.
abbrev pub add_checker :
    Option Attributes → PkgCheck → Option (List Checker) → Option (List Checker)
add_checker none pc rest = none
add_checker (some d) pc none = none
add_checker (some d) pc (some chks) = some (single_check (some (record d { part = any })) pc ∷ chks)

-- `cveChecker.Check`
unfoldable pub cve_check : Bytes → List Checker → Checker
unfolding text_eq
cve_check name chks pkg distro cve =
    if text_eq cve name then check_any chks pkg distro cve else false

abbrev pub unless_empty : Bytes → Option (List Checker) → Option Checker
unless_empty name none = none
unless_empty name (some []) = none
unless_empty name (some (chk ∷ chks)) = some (cve_check name (chk ∷ chks))

abbrev pub append_checkers : Option (List Checker) → Option (List Checker) → Option (List Checker)
append_checkers none b = none
append_checkers (some a) none = none
append_checkers (some a) (some b) = some (a ++ b)

module _ (parse_name : Bytes → Option Attributes) where
  unfoldable pub affected_release_checkers : List AffectedRelease → Option (List Checker)
  unfolding parse single_check
  affected_release_checkers [] = some []
  affected_release_checkers (ar ∷ ars) =
      let rest = affected_release_checkers ars in
      if is_empty ar.cpe
      then rest
      else add_checker (parse_name ar.cpe) (release_pkg_check ar.pkg) rest

  unfoldable pub package_state_checkers : List PackageState → Option (List Checker)
  unfolding single_check is_fixed
  package_state_checkers [] = some []
  package_state_checkers (ps ∷ pss) =
      let rest = package_state_checkers pss in
      if not (is_empty ps.fix_state) && not (is_fixed ps.fix_state)
      then rest
      else if is_empty ps.cpe
      then rest
      else add_checker (parse_name ps.cpe) (state_pkg_check ps.package_name) rest

  -- `CVEChecker`
  unfoldable pub cve_checker : Cve → Option Checker
  unfolding affected_release_checkers package_state_checkers cve_check
  cve_checker cve = unless_empty cve.name (
      append_checkers (affected_release_checkers cve.affected_release)
        (package_state_checkers cve.package_state))
