-- ===== src/Wfn/Display.antt =====
-- wfn/wfn.go: `String`.
use nvdtools.Prelude.{not, ◌||◌, List, [], ◌∷◌, ◌++◌, Bytes, codes, join, text_eq, if◌then◌else◌}
use nvdtools.Wfn.Attributes.{Attributes, any, na}

unfoldable pub key_value_string : Bytes → Bytes → Bytes
unfolding text_eq
key_value_string k v =
    if text_eq v any
    then k ++ codes "=ANY"
    else if text_eq v na
    then k ++ codes "=NA"
    else k ++ (codes "=\"" ++ (v ++ codes "\""))

-- The four attributes that are shown if one of them is not ANY.
unfoldable pub extended_parts : Attributes → List Bytes
unfolding key_value_string text_eq
extended_parts a =
    if not (text_eq a.sw_edition any)
      || not (text_eq a.target_hw any)
      || not (text_eq a.target_sw any)
      || not (text_eq a.other any)
    then key_value_string (codes "sw_edition") a.sw_edition
      ∷ key_value_string (codes "target_sw") a.target_sw
      ∷ key_value_string (codes "target_hw") a.target_hw
      ∷ key_value_string (codes "other") a.other
      ∷ []
    else []

unfoldable pub display : Attributes → Bytes
unfolding extended_parts key_value_string
display a =
    let shown =
      key_value_string (codes "part") a.part
      ∷ key_value_string (codes "vendor") a.vendor
      ∷ key_value_string (codes "product") a.product
      ∷ key_value_string (codes "version") a.version
      ∷ key_value_string (codes "update") a.update
      ∷ key_value_string (codes "edition") a.edition
      ∷ [] in
    codes "wfn:["
    ++ (join b','
          (shown ++ (extended_parts a ++ key_value_string (codes "language") a.language ∷ []))
        ++ codes "]")
