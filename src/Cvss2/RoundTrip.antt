-- ===== src/Cvss2/RoundTrip.antt =====
-- cvss2/vector.go: a vector is read back from its text.
use nvdtools.Prelude.{
  ◌≡◌, ◌≢◌, refl, ap, true, ◌∙◌, some, List, [], ◌∷◌, ◌++◌, Bytes, codes, All, Lacks, All-append,
  text_eq, lacks, lacks_sound, split, split-join, join, strip_prefix, strip_prefix-append,
  trim_suffix, trim_suffix-append, arith, ◌<◌,
}
use nvdtools.Cvss.Metric.{codes_ok, size}
use nvdtools.Cvss.Parts.{ok, write_parts, read_parts, find_metric}
use nvdtools.Cvss.RoundTrip.{
  Laws, Among, Code, write_read, write_parts-All, write_parts-ne-nil, overlay_all,
}
use nvdtools.Cvss2.Vector.{
  Metric, Metric-discrete, name, kind, order, Vector, to_string, vector_from_string, no_values,
  trim_open,
}

lookup_name : (m : Metric) → find_metric Metric-discrete name kind order (name m) ≡ some m
unfolding find_metric text_eq
lookup_name Metric.access_vector = refl
lookup_name _ = refl

name-lacks : (m : Metric) → (lacks b':' (name m) ≡ true) × (lacks b'/' (name m) ≡ true)
unfolding lacks
name-lacks Metric.access_vector = (refl, refl)
name-lacks _ = (refl, refl)

kinds_ok : (m : Metric) → codes_ok (kind m) ≡ true
unfolding codes_ok
kinds_ok Metric.access_vector = refl
kinds_ok _ = refl

order_complete : (m : Metric) → Among m order
order_complete m = ground arith

pub laws : Laws Metric-discrete name kind order
laws = record {
  lookup = lookup_name;
  name_colon = λ m. lacks_sound b':' (name m) (name-lacks m).0;
  name_slash = λ m. lacks_sound b'/' (name m) (name-lacks m).1;
  kinds = kinds_ok;
  complete = order_complete;
}

-- Each value of the vector is one of its type.
abbrev pub IsValid : Vector → Type 0
IsValid v = (m : Metric) → v m < size (kind m)

vector_from_string_lem :
    (s : Bytes)
    → vector_from_string s
      ≡ read_parts Metric-discrete name kind order
          (split b'/' (trim_suffix (codes ")") (trim_open s (strip_prefix (codes "(") s))))
          no_values
unfolding vector_from_string
vector_from_string_lem s = refl

read_back :
    (p : Bytes) (ps : List Bytes) (v : Vector)
    → All (Lacks b'/') (p ∷ ps)
    → read_parts Metric-discrete name kind order (p ∷ ps) no_values ≡ ok v
    → vector_from_string (b'(' ∷ (join b'/' (p ∷ ps) ++ codes ")")) ≡ ok v
read_back p ps v slashes h = rw (
  vector_from_string_lem,
  strip_prefix-append (codes "(") (join b'/' (p ∷ ps) ++ codes ")"),
  trim_suffix-append (join b'/' (p ∷ ps)) (codes ")"),
  split-join b'/' p ps slashes,
  h,
)

part_slash :
    (v : Vector) (k : Metric) (c : Code (kind k) (v k)) → Lacks b'/' (name k ++ b':' ∷ c.text)
part_slash v k c =
    All-append _ (name k) (b':' ∷ c.text) (laws.name_slash k) (omega arith, c.no_slash)

written_back :
    (v : Vector) (parts : List Bytes)
    → write_parts Metric-discrete name kind order v ≡ some parts
    → read_parts Metric-discrete name kind order parts no_values ≡ ok v
    → write_parts Metric-discrete name kind order v ≢ some []
    → All (Lacks b'/') parts
    → (s : Bytes) × (to_string v ≡ some s) × (vector_from_string s ≡ ok v)
written_back v [] w r ne slashes = absurd (ne w)
written_back v (p ∷ ps) w r ne slashes =
    (b'(' ∷ (join b'/' (p ∷ ps) ++ codes ")"), unfold to_string in rw w, read_back p ps v slashes r)

-- A version 2 vector in which each value is one of its type, and one metric at least is defined, has
-- a text, and `VectorFromString` reads this text as the same vector.
pub vector2_from_string-to_string :
    (v : Vector) (m : Metric)
    → IsValid v
    → v m ≢ 0
    → (s : Bytes) × (to_string v ≡ some s) × (vector_from_string s ≡ ok v)
vector2_from_string-to_string v m valid n =
    let (parts, w, r) = write_read laws order v valid in
    written_back v parts w (r no_values ∙ ap ok (overlay_all laws v))
      (write_parts-ne-nil laws m v valid n order (order_complete m))
      (write_parts-All laws (Lacks b'/') v valid (part_slash v) order parts w)
