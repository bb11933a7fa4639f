-- ===== src/Samples/Nvd.antt =====
-- cvefeed/nvd at concrete inputs.
use nvdtools.Prelude.{
  ℕ, ◌≡◌, ◌↔◌, refl, Bool, true, false, Option, none, some, [], ◌&&◌, text_eq, if◌then◌else◌, ◌∷◌,
  Bytes, codes, Ordering, lt, eq, gt, flip,
}
use nvdtools.Wfn.Attributes.{Attributes, any, new_attributes}
use nvdtools.Wfn.Matching.{match_without_version, match_attr}
use nvdtools.Nvd.SmartVer.{smart_ver_cmp}
use nvdtools.Nvd.SmartOrder.{smart_ver_cmp-flip}
use nvdtools.Nvd.MatchCpe.{
  CpeMatch, FeedMatch, cpe_matcher, match, match_version, match_ranges, in_ranges,
}
use nvdtools.Wfn.Matcher.{contains, run}
use nvdtools.Nvd.MatchNode.{Node, node, no_nodes, one_node, to_vuln, node_matcher}
use nvdtools.Nvd.Nodes.{run-to_vuln, below_one}
use nvdtools.Nvd.Readable.{is_matcher, readable, node_matcher-readable}
use nvdtools.Nvd.Ranges.{match-require_version, InRange, in_ranges_iff, Accepts, match_iff}

-- Versions without separators are compared as they are.
years : smart_ver_cmp (codes "2000") (codes "11.7") ≡ some gt
unfolding smart_ver_cmp
years = refl

smart_ver_cmp-flip_example :
    (r : Ordering) × (smart_ver_cmp (codes "1.9") (codes "1.10") ≡ some r)
    × (smart_ver_cmp (codes "1.10") (codes "1.9") ≡ some (flip r))
smart_ver_cmp-flip_example = smart_ver_cmp-flip (codes "1.9") (codes "1.10")

abbrev glibc : Attributes
glibc = record (new_attributes any) {
  part = codes "a";
  vendor = codes "gnu";
  product = codes "glibc";
}

abbrev glibc_2_28 : Attributes
glibc_2_28 = record glibc { version = codes "2\\.28" }

abbrev from_2_to_2_30 : FeedMatch
from_2_to_2_30 = record {
  cpe22_uri = [];
  cpe23_uri = codes "cpe:2.3:a:gnu:glibc:*:*:*:*:*:*:*:*";
  vulnerable = true;
  version_end_excluding = codes "2.30";
  version_end_including = [];
  version_start_excluding = [];
  version_start_including = codes "2.0";
}

abbrev glibc_match : CpeMatch
glibc_match = cpe_matcher glibc from_2_to_2_30

glibc_matched : match glibc_match glibc_2_28 true ≡ true
unfolding match match_version match_ranges in_ranges cpe_matcher match_without_version match_attr
    smart_ver_cmp nvdtools.Wfn.Slashes.strip_slashes nvdtools.Prelude.text_eq
glibc_matched = refl

version_not_required : match glibc_match glibc_2_28 false ≡ true
version_not_required = match-require_version glibc_match glibc_2_28 glibc_matched

glibc_versions :
    (in_ranges (cpe_matcher glibc from_2_to_2_30) (codes "2.28") ≡ true)
    ↔ InRange from_2_to_2_30 (codes "2.28")
glibc_versions = in_ranges_iff glibc from_2_to_2_30 (codes "2.28")

match_iff_example : (match glibc_match glibc_2_28 true ≡ true) ↔ (
    (match_without_version glibc_match.attributes glibc_2_28 ≡ true)
    × Accepts glibc_match glibc_2_28 true)
match_iff_example = match_iff glibc_match glibc_2_28 true

-- A reader of names that knows one of them.
abbrev read_glibc : Bytes → Option Attributes
read_glibc uri = if text_eq uri from_2_to_2_30.cpe23_uri then some glibc else none

abbrev or_node : Node
or_node = node (some from_2_to_2_30 ∷ none ∷ []) no_nodes (codes "or") false

abbrev installed : ℕ → Attributes
installed i = glibc_2_28

or_node_matched :
    contains 7 (
      run
        (λ cm a. match cm (installed a) true)
        (7 ∷ [])
        (to_vuln read_glibc (one_node or_node no_nodes)))
    ≡ true
unfolding contains run match match_version match_ranges in_ranges cpe_matcher match_without_version
    match_attr smart_ver_cmp nvdtools.Wfn.Slashes.strip_slashes nvdtools.Prelude.text_eq
    nvdtools.Nvd.MatchNode.node_matcher nvdtools.Wfn.Matcher.select nvdtools.Wfn.Matcher.insert_all
    nvdtools.Nvd.MatchCpe.parsed_matcher
or_node_matched = refl

run-to_vuln_example :
    contains 7 (
      run
        (λ cm a. match cm (installed a) true)
        (7 ∷ [])
        (to_vuln read_glibc (one_node or_node no_nodes)))
    ≡ contains 7 (7 ∷ []) && below_one read_glibc installed true (one_node or_node no_nodes) 7
unfolding text_eq nvdtools.Prelude.to_upper
run-to_vuln_example =
    run-to_vuln read_glibc installed true (7 ∷ []) (one_node or_node no_nodes) 7
      ((refl, refl, tt), tt)

some_name_read : is_matcher (node_matcher read_glibc or_node) ≡ readable read_glibc or_node
some_name_read = node_matcher-readable read_glibc or_node

-- Where one text ends first, the lengths decide, with leading zeros and later parts counted.
zeros_count :
    (smart_ver_cmp (codes "001") (codes "1.5") ≡ some eq)
    × (smart_ver_cmp (codes "0001") (codes "1.5") ≡ some gt)
unfolding smart_ver_cmp
zeros_count = (refl, refl)
