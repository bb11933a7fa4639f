-- ===== src/Samples/Redhat.antt =====
-- The checkers of Red Hat at a concrete input.
use nvdtools.Prelude.{true, false, Option, none, some, [], ◌∷◌, Bytes, codes, ◌≡◌, refl}
use nvdtools.Wfn.Attributes.{Attributes}
use nvdtools.Wfn.Fragment.{Reading, read, failed, panicked}
use nvdtools.Wfn.Parse.{parse}
use nvdtools.Rpm.Compare.{label_compare}
use nvdtools.Rpm.Parse.{Package}
use nvdtools.Rpm.Checker.{Checker, filter_fixed_packages}
use nvdtools.Redhat.Check.{Cve, cve_checker}
use nvdtools.Redhat.Upgrade.{Upgrade, cve_checker-Upgrade}

abbrev name_read : Reading Attributes → Option Attributes
name_read (read a) = some a
name_read failed = none
name_read panicked = none

-- The reading of names of the source.
abbrev read_name : Bytes → Option Attributes
unfolding parse
read_name s = name_read (parse s)

abbrev entry : Cve
entry = record {
  name = codes "CVE-1";
  affected_release =
      record {
        pkg = codes "firefox-68.1.0-1.el8_0";
        cpe = codes "cpe:/a:redhat:enterprise_linux:8";
      }
      ∷ [];
  package_state = [];
}

abbrev firefox : Bytes → Package
firefox version = record {
  name = codes "firefox";
  label = record { epoch = []; version = version; release = codes "1" };
  arch = [];
}

abbrev old_checker : Option Checker → Checker
old_checker none pkg distro cve = false
old_checker (some chk) pkg distro cve = chk pkg distro cve

abbrev chk : Checker
unfolding cve_checker read_name
chk = old_checker (cve_checker read_name entry)

newer : Upgrade (firefox (codes "68.1.1")) (firefox (codes "69.0"))
unfolding label_compare
newer = record { same_name = refl; same_arch = refl; not_newer = λ e. cc }

cve_checker-Upgrade_example : chk (some (firefox (codes "69.0"))) none (codes "CVE-1") ≡ true
unfolding chk cve_checker read_name
cve_checker-Upgrade_example =
    cve_checker-Upgrade read_name entry chk (firefox (codes "68.1.1")) (firefox (codes "69.0")) none
      (codes "CVE-1") refl newer refl

-- The fixed package is left out, and a name that cannot be read stays.
kept :
    filter_fixed_packages read_name chk
      (codes "firefox-69.0-1.x86_64.rpm" ∷ codes "firefox" ∷ [])
      (codes "cpe:/o:redhat:enterprise_linux:8")
      (codes "CVE-1")
    ≡ some (codes "firefox" ∷ [])
unfolding chk cve_checker read_name filter_fixed_packages nvdtools.Wfn.Matching.match_attr
kept = refl
