-- ===== src/Samples/Uri.antt =====
-- Names as URIs at a concrete input.
use nvdtools.Prelude.{List, [], ◌∷◌, ◌++◌, Bytes, codes, ◌≡◌, ◌≢◌, refl}
use nvdtools.Wfn.Attributes.{Attributes, new_attributes}
use nvdtools.Wfn.Spelled.{Token, plain, quoted, wild, spell}
use nvdtools.Wfn.Uri.{bind_value_uri, value, unbind_value_uri_at_till}
use nvdtools.Wfn.UriName.{bind_to_uri, unbind_uri, no_fuel}
use nvdtools.Wfn.UriValue.{unbind_value_uri-bind}
use nvdtools.Wfn.UriNameEnds.{unbind_uri-ends}

abbrev tokens : List Token
tokens =
    wild b'*' ∷ plain b'a' ∷ quoted b'!' ∷ quoted b'-' ∷ quoted b'.' ∷ plain b'_' ∷ wild b'?' ∷ []

tokens_spelled : spell tokens ≡ codes "*a\\!\\-\\._?"
tokens_spelled = refl

unbind_value_uri-bind_example :
    (b : Bytes) × (unbind_value_uri_at_till b':'
        (record { before = []; rest = bind_value_uri (spell tokens) ++ codes ":x" })
      ≡ value (spell tokens) (record { before = b; rest = codes ":x" }))
unfolding nvdtools.Wfn.Uri.is_coded nvdtools.Wfn.Uri.is_plain
unbind_value_uri-bind_example =
    unbind_value_uri-bind tokens b':' [] (codes ":x")
      ((refl, refl), (refl, (refl, (refl, (refl, (refl, ((refl, refl), tt))))))) refl refl

unbind_uri-ends_example : unbind_uri (codes "cpe:/a:b:%zz") ≢ no_fuel
unbind_uri-ends_example = unbind_uri-ends (codes "cpe:/a:b:%zz")

abbrev microsoft : Attributes
microsoft = record (new_attributes []) {
  part = codes "o";
  vendor = codes "microsoft";
  product = codes "windows_10";
  version = codes "-";
  target_hw = codes "x64";
}

packed_edition : bind_to_uri microsoft ≡ codes "cpe:/o:microsoft:windows_10:-::~~~~x64~"
unfolding bind_to_uri
packed_edition = refl
