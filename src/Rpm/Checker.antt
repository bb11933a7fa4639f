-- ===== src/Rpm/Checker.antt =====
-- rpm/checker.go: checkers of packages, and the packages that are not fixed.
--
-- A checker is its method `Check`. A pointer that may be nil is an option. `parse_name` is `wfn.Parse`.
use nvdtools.Prelude.{Bool, true, false, Option, none, some, List, [], ◌∷◌, Bytes, if◌then◌else◌}
use nvdtools.Wfn.Attributes.{Attributes}
use nvdtools.Rpm.Parse.{Package, Result, ok, err, parse}

abbrev pub Checker : Type 0
Checker = Option Package → Option Attributes → Bytes → Bool

-- `anyChecker.Check`
abbrev pub check_any : List Checker → Checker
check_any [] pkg distro cve = false
check_any (chk ∷ chks) pkg distro cve =
    if chk pkg distro cve then true else check_any chks pkg distro cve

abbrev pub check_each : List Checker → Checker
check_each [] pkg distro cve = true
check_each (chk ∷ chks) pkg distro cve =
    if chk pkg distro cve then check_each chks pkg distro cve else false

-- `allChecker.Check`
abbrev pub check_all : List Checker → Checker
check_all [] pkg distro cve = false
check_all (chk ∷ chks) pkg distro cve = check_each (chk ∷ chks) pkg distro cve

-- A package of the list: it stays if it cannot be read or is not fixed.
abbrev pub is_fixed : Checker → Attributes → Bytes → Result Package → Bool
is_fixed chk distro cve (ok p) = chk (some p) (some distro) cve
is_fixed chk distro cve (err e) = false

abbrev pub filter_loop : Checker → Attributes → Bytes → List Bytes → List Bytes
filter_loop chk distro cve [] = []
filter_loop chk distro cve (pkg ∷ pkgs) =
    let rest = filter_loop chk distro cve pkgs in
    if is_fixed chk distro cve (parse pkg) then rest else pkg ∷ rest

module _ (parse_name : Bytes → Option Attributes) where
  abbrev pub check_parsed : Checker → Bytes → Result Package → Option Attributes → Option Bool
  check_parsed chk cve (err e) d = none
  check_parsed chk cve (ok p) none = none
  check_parsed chk cve (ok p) (some d) = some (chk (some p) (some d) cve)

  -- `Check`
  unfoldable pub check : Checker → Bytes → Bytes → Bytes → Option Bool
  unfolding parse
  check chk pkg distro cve = check_parsed chk cve (parse pkg) (parse_name distro)

  abbrev pub filter_for : Checker → List Bytes → Bytes → Option Attributes → Option (List Bytes)
  filter_for chk pkgs cve none = none
  filter_for chk pkgs cve (some d) = some (filter_loop chk d cve pkgs)

  -- `FilterFixedPackages`
  unfoldable pub filter_fixed_packages : Checker → List Bytes → Bytes → Bytes → Option (List Bytes)
  unfolding parse
  filter_fixed_packages chk pkgs distro cve = filter_for chk pkgs cve (parse_name distro)
