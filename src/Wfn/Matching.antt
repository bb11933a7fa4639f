-- ===== src/Wfn/Matching.antt =====
-- wfn/matching.go: `CompareAttr`, `matchAttr`, `Compare` and `Match`.
use nvdtools.Prelude.{Bool, true, false, not, ◌&&◌, ◌||◌, Bytes, if◌then◌else◌, text_eq}
use nvdtools.Wfn.Attributes.{Attributes, any, na}
use nvdtools.Wfn.Relation.{
  Relation, disjoint, subset, equal, superset, Comparison, is_disjoint_attr,
}
use nvdtools.Wfn.Wildcard.{has_wildcard}
use nvdtools.Wfn.Strings.{match_str}

-- A value, or the error that the target holds a wildcard.
pub data Result {ℓ} (A : Type ℓ) : Type ℓ where
  ok : A → Result A
  wildcard_error : Result A

infixl 5 ◌>>=◌
abbrev pub ◌>>=◌ {ℓ κ} : {A : Type ℓ} {B : Type κ} → Result A → (A → Result B) → Result B
ok a >>= f = f a
wildcard_error >>= f = wildcard_error

unfoldable pub compare_attr : Bytes → Bytes → Result Relation
compare_attr src tgt =
    if not (text_eq src na) && not (text_eq src any) && has_wildcard tgt
    then wildcard_error
    else if text_eq src tgt
    then ok equal
    else if text_eq src any
    then ok superset
    else if text_eq tgt any
    then ok subset
    else if text_eq src na || text_eq tgt na
    then ok disjoint
    else ok (match_str src tgt)

unfoldable pub match_attr : Bytes → Bytes → Bool
match_attr src tgt =
    if text_eq src any || text_eq tgt any || text_eq src tgt
    then true
    else if text_eq src na || text_eq tgt na || has_wildcard tgt
    then false
    else not (is_disjoint_attr (match_str src tgt))

-- `Compare`, in the order of its calls
unfoldable pub compare : Attributes → Attributes → Result Comparison
compare src tgt = do
  part ← compare_attr src.part tgt.part
  vendor ← compare_attr src.vendor tgt.vendor
  product ← compare_attr src.product tgt.product
  version ← compare_attr src.version tgt.version
  update ← compare_attr src.update tgt.update
  edition ← compare_attr src.edition tgt.edition
  language ← compare_attr src.language tgt.language
  sw_edition ← compare_attr src.sw_edition tgt.sw_edition
  target_sw ← compare_attr src.target_sw tgt.target_sw
  target_hw ← compare_attr src.target_hw tgt.target_hw
  other ← compare_attr src.other tgt.other
  ok (record {
    part = part;
    vendor = vendor;
    product = product;
    version = version;
    update = update;
    edition = edition;
    language = language;
    sw_edition = sw_edition;
    target_sw = target_sw;
    target_hw = target_hw;
    other = other;
  })

-- `Match`, on pointers that are not nil
unfoldable pub match : Attributes → Attributes → Bool
match src tgt =
    match_attr src.part tgt.part
    && match_attr src.vendor tgt.vendor
    && match_attr src.product tgt.product
    && match_attr src.version tgt.version
    && match_attr src.update tgt.update
    && match_attr src.edition tgt.edition
    && match_attr src.language tgt.language
    && match_attr src.sw_edition tgt.sw_edition
    && match_attr src.target_hw tgt.target_hw
    && match_attr src.target_sw tgt.target_sw
    && match_attr src.other tgt.other

-- wfn/matcher.go: `MatchOnlyVersion` and `MatchWithoutVersion`, on pointers that are not nil
unfoldable pub match_only_version : Attributes → Attributes → Bool
match_only_version a attr = match_attr a.version attr.version

unfoldable pub match_without_version : Attributes → Attributes → Bool
match_without_version a attr =
    match_attr a.product attr.product
    && match_attr a.vendor attr.vendor
    && match_attr a.part attr.part
    && match_attr a.update attr.update
    && match_attr a.edition attr.edition
    && match_attr a.language attr.language
    && match_attr a.sw_edition attr.sw_edition
    && match_attr a.target_hw attr.target_hw
    && match_attr a.target_sw attr.target_sw
    && match_attr a.other attr.other
