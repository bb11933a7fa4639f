-- ===== src/Rpm/RoundTrip.antt =====
-- rpm/parse.go reads back the parts that a file name of rpm is made of.
use nvdtools.Prelude.{
  ◌≡◌, [], ◌∷◌, ◌++◌, Bytes, codes, Lacks, cut_first_lem, cut_first-none, cut_last_lem,
  trim_suffix-append,
}
use nvdtools.Rpm.Parse.{Package, parse, ok, to_lower, arch_of, epoch_version}

-- The version with its epoch, if it has one.
unfoldable pub with_epoch : Bytes → Bytes → Bytes
with_epoch [] version = version
with_epoch (c ∷ epoch) version = (c ∷ epoch) ++ b':' ∷ version

-- `name-[epoch:]version-release.arch.rpm`
pub file_name : Package → Bytes
file_name p =
    let ver = with_epoch p.label.epoch p.label.version in
    (((p.name ++ b'-' ∷ ver) ++ b'-' ∷ p.label.release) ++ b'.' ∷ p.arch) ++ codes ".rpm"

-- The parts hold none of the bytes that end them, and are as the source normalises them.
pub record IsPrintable (p : Package) : Type 0 where
  pub lower_name : to_lower p.name ≡ p.name
  pub ver_lacks : Lacks b'-' (with_epoch p.label.epoch p.label.version)
  pub epoch_lacks : Lacks b':' p.label.epoch
  pub version_lacks : Lacks b':' p.label.version
  pub release_lacks : Lacks b'-' p.label.release
  pub arch_lacks : Lacks b'.' p.arch
  pub plain_arch : arch_of p.arch ≡ p.arch

epoch_version-with_epoch :
    (epoch version : Bytes)
    → Lacks b':' epoch
    → Lacks b':' version
    → epoch_version (with_epoch epoch version) ≡ (epoch, version)
unfolding with_epoch
epoch_version-with_epoch [] version h k = rw (cut_first-none b':' version k, epoch_version)
epoch_version-with_epoch (c ∷ epoch) version h k =
    rw (cut_first_lem b':' (c ∷ epoch) version h, epoch_version)

-- The file name of a package whose parts hold no separator is read back as that package.
pub parse-file_name : (p : Package) → IsPrintable p → parse (file_name p) ≡ ok p
unfolding parse file_name
parse-file_name p h =
    let ver = with_epoch p.label.epoch p.label.version in
    rw (
      trim_suffix-append ((((p.name ++ b'-' ∷ ver) ++ b'-' ∷ p.label.release) ++ b'.' ∷ p.arch))
          (codes ".rpm"),
      cut_last_lem b'.' ((p.name ++ b'-' ∷ ver) ++ b'-' ∷ p.label.release) p.arch h.arch_lacks,
      cut_last_lem b'-' (p.name ++ b'-' ∷ ver) p.label.release h.release_lacks,
      cut_last_lem b'-' p.name ver h.ver_lacks,
      epoch_version-with_epoch p.label.epoch p.label.version h.epoch_lacks h.version_lacks,
      h.lower_name,
      h.plain_arch,
    )
