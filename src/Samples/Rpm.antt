-- ===== src/Samples/Rpm.antt =====
-- rpm at concrete inputs.
use nvdtools.Prelude.{
  ℕ, ◌≡◌, refl, some, [], ◌∷◌, Bytes, codes, Ordering, lt, eq, gt, flip, Chain, arith,
}
use nvdtools.Rpm.Compare.{Label, version_compare, label_compare}
use nvdtools.Rpm.Key.{version_key, compare_keys}
use nvdtools.Rpm.Order.{version_compare-keys, label_compare-flip, label_compare_trans}
use nvdtools.Rpm.Parse.{Package, ok, err, no_release, parse, to_lower, arch_of}
use nvdtools.Rpm.RoundTrip.{file_name, IsPrintable, with_epoch, parse-file_name}

tilde_is_older : version_compare (codes "1.0~rc1") (codes "1.0") ≡ some lt
unfolding version_compare
tilde_is_older = refl

letters_are_older : version_compare (codes "1.0.a") (codes "1.0.1") ≡ some lt
unfolding version_compare
letters_are_older = refl

zeros_do_not_count : version_compare (codes "1.05") (codes "1_5") ≡ some eq
unfolding version_compare
zeros_do_not_count = refl

abbrev label_old : Label
label_old = record { epoch = []; version = codes "2.1"; release = codes "3" }

abbrev label_mid : Label
label_mid = record { epoch = []; version = codes "2.1"; release = codes "11" }

abbrev label_new : Label
label_new = record { epoch = codes "1"; version = codes "1.0"; release = codes "1" }

old_before_mid : label_compare label_old label_mid ≡ some lt
unfolding label_compare
old_before_mid = refl

mid_before_new : label_compare label_mid label_new ≡ some lt
unfolding label_compare
mid_before_new = refl

version_compare-keys_example :
    version_compare (codes "1.0~rc1") (codes "1.0")
    ≡ some (compare_keys (version_key (codes "1.0~rc1")) (version_key (codes "1.0")))
version_compare-keys_example = version_compare-keys (codes "1.0~rc1") (codes "1.0")

label_compare-flip_example :
    (r : Ordering) × (label_compare label_old label_new ≡ some r)
    × (label_compare label_new label_old ≡ some (flip r))
    × (label_compare label_old label_old ≡ some eq)
label_compare-flip_example = label_compare-flip label_old label_new

label_compare_trans_example :
    (t : Ordering) × (label_compare label_old label_new ≡ some t) × Chain lt lt t
label_compare_trans_example =
    label_compare_trans label_old label_mid label_new lt lt old_before_mid mid_before_new

abbrev bash_label : Label
bash_label = record { epoch = codes "1"; version = codes "4.4"; release = codes "1.fc27" }

abbrev bash_package : Package
bash_package = record { name = codes "bash"; label = bash_label; arch = codes "x86_64" }

bash_parsed : parse (codes "bash-1:4.4-1.fc27.x86_64.rpm") ≡ ok bash_package
unfolding parse
bash_parsed = refl

source_package_has_no_arch :
    parse (codes "Bash-4.4-1.src")
    ≡ ok (record {
      name = codes "bash";
      label = record { epoch = []; version = codes "4.4"; release = codes "1" };
      arch = [];
    })
unfolding parse
source_package_has_no_arch = refl

no_release_found : parse (codes "bash.x86_64") ≡ err no_release
unfolding parse
no_release_found = refl

bash_package-IsPrintable : IsPrintable bash_package
unfolding to_lower arch_of with_epoch nvdtools.Prelude.text_eq
bash_package-IsPrintable = record {
  lower_name = refl;
  ver_lacks = omega arith;
  epoch_lacks = omega arith;
  version_lacks = omega arith;
  release_lacks = omega arith;
  arch_lacks = omega arith;
  plain_arch = refl;
}

parse-file_name_example : parse (file_name bash_package) ≡ ok bash_package
parse-file_name_example = parse-file_name bash_package bash_package-IsPrintable
