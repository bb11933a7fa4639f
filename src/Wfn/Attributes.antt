-- ===== src/Wfn/Attributes.antt =====
-- wfn/wfn.go: the attributes of a name. A value is a text; the empty one is ANY and `-` is NA.
use nvdtools.Prelude.{Bytes, [], ◌∷◌}

pub record Attributes : Type 0 where
  pub part : Bytes
  pub vendor : Bytes
  pub product : Bytes
  pub version : Bytes
  pub update : Bytes
  pub edition : Bytes
  pub sw_edition : Bytes
  pub target_sw : Bytes
  pub target_hw : Bytes
  pub other : Bytes
  pub language : Bytes

abbrev pub any : Bytes
any = []

abbrev pub na : Bytes
na = b'-' ∷ []

abbrev pub new_attributes : Bytes → Attributes
new_attributes value = record {
  part = value;
  vendor = value;
  product = value;
  version = value;
  update = value;
  edition = value;
  sw_edition = value;
  target_sw = value;
  target_hw = value;
  other = value;
  language = value;
}
