-- ===== src/Nvd/MatchCpe.antt =====
-- cvefeed/nvd/match_cpe.go: the matching of one name against a name with version ranges. The
-- pointers that it takes are not nil.
use nvdtools.Prelude.{
  Bool, true, false, not, ◌&&◌, ◌||◌, Option, none, some, Bytes, if◌then◌else◌, text_eq, is_empty,
  Ordering, lt, eq, gt,
}
use mathlib.Core.Option
use nvdtools.Wfn.Attributes.{Attributes, any}
use nvdtools.Wfn.Matching.{match_only_version, match_without_version}
use nvdtools.Wfn.Slashes.{strip_slashes}
use nvdtools.Nvd.SmartVer.{smart_ver_cmp}

pub record CpeMatch : Type 0 where
  pub attributes : Attributes
  pub vulnerable : Bool
  pub version_end_excluding : Bytes
  pub version_end_including : Bytes
  pub version_start_excluding : Bytes
  pub version_start_including : Bytes
  pub has_version_ranges : Bool

-- The answer of `smartVerCmp`, which there always is.
abbrev pub answer : Option Ordering → Ordering
answer (some c) = c
answer none = eq

abbrev pub at_least : Ordering → Bool
at_least lt = false
at_least _ = true

abbrev pub at_most : Ordering → Bool
at_most gt = false
at_most _ = true

abbrev pub above : Ordering → Bool
above gt = true
above _ = false

abbrev pub below : Ordering → Bool
below lt = true
below _ = false

-- `if bound != "" { matches = matches && test(smartVerCmp(ver, bound)) }`
unfoldable pub bounded : (Ordering → Bool) → Bytes → Bytes → Bool
bounded test ver bound = is_empty bound || test (answer (smart_ver_cmp ver bound))

unfoldable pub in_ranges : CpeMatch → Bytes → Bool
unfolding bounded
in_ranges cm ver =
    bounded at_least ver cm.version_start_including
    && bounded above ver cm.version_start_excluding
    && bounded at_most ver cm.version_end_including
    && bounded below ver cm.version_end_excluding

-- What follows the tests of the versions as names.
unfoldable pub match_ranges : CpeMatch → Attributes → Bool
match_ranges cm attr =
    if text_eq attr.version any
    then true
    else if not cm.has_version_ranges
    then false
    else in_ranges cm (strip_slashes attr.version)

-- What follows the match of all but the version.
unfoldable pub match_version : CpeMatch → Attributes → Bool → Bool
match_version cm attr require_version =
    if text_eq cm.attributes.version any
    then (if not cm.has_version_ranges then not require_version else match_ranges cm attr)
    else if match_only_version cm.attributes attr
    then true
    else match_ranges cm attr

unfoldable pub match : CpeMatch → Attributes → Bool → Bool
match cm attr require_version =
    if require_version && (not cm.has_version_ranges && text_eq cm.attributes.version any)
    then false
    else if not (match_without_version cm.attributes attr)
    then false
    else match_version cm attr require_version

-- A match as the feed gives it, with its name in two forms.
pub record FeedMatch : Type 0 where
  pub cpe22_uri : Bytes
  pub cpe23_uri : Bytes
  pub vulnerable : Bool
  pub version_end_excluding : Bytes
  pub version_end_including : Bytes
  pub version_start_excluding : Bytes
  pub version_start_including : Bytes

-- `cpeMatcher`, once the name is parsed
unfoldable pub cpe_matcher : Attributes → FeedMatch → CpeMatch
cpe_matcher attributes m = record {
  attributes = attributes;
  vulnerable = m.vulnerable;
  version_end_excluding = m.version_end_excluding;
  version_end_including = m.version_end_including;
  version_start_excluding = m.version_start_excluding;
  version_start_including = m.version_start_including;
  has_version_ranges =
      not (is_empty m.version_start_including)
      || not (is_empty m.version_start_excluding)
      || not (is_empty m.version_end_including)
      || not (is_empty m.version_end_excluding);
}

-- `cpeMatcher`, for the function that reads a name (`wfn.Parse`): the name in the newer form, else that
-- in the older one. `none` is an error.
abbrev pub parse_uri : (Bytes → Option Attributes) → Bytes → Option Attributes
parse_uri parse uri = if is_empty uri then none else parse uri

abbrev pub first_some : Option Attributes → Option Attributes → Option Attributes
first_some none b = b
first_some (some a) b = some a

abbrev pub parse_name : (Bytes → Option Attributes) → FeedMatch → Option Attributes
parse_name parse m = first_some (parse_uri parse m.cpe23_uri) (parse_uri parse m.cpe22_uri)

unfoldable pub parsed_matcher : (Bytes → Option Attributes) → FeedMatch → Option CpeMatch
parsed_matcher parse m = Option.map (λ attributes. cpe_matcher attributes m) (parse_name parse m)
