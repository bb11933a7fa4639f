-- ===== src/Cvss3/RoundTrip.antt =====
-- cvss3/vector.go: a vector is read back from its text.
use nvdtools.Prelude.{
  ℕ, ◌≡◌, ◌≢◌, refl, ap, true, ◌∙◌, some, List, [], ◌∷◌, ◌++◌, Bytes, All, Lacks, All-append,
  text_eq, lacks, lacks_sound, split-join, join, cut_first_lem, cut_first-none, to_upper-Lacks,
  strip_prefix, strip_prefix-append, to_upper, to_upper-append, arith, ◌<◌,
}
use nvdtools.Cvss.Metric.{codes_ok, size}
use nvdtools.Cvss.Parts.{ok, err, panic, write_parts, read_parts, find_metric}
use nvdtools.Cvss.RoundTrip.{
  Laws, Among, Code, write_read, write_parts-All, write_parts-ne-nil, overlay, overlay_all,
}
use nvdtools.Cvss3.Vector.{
  Metric, Metric-discrete, name, kind, order, Version, v30, v31, Vector, prefix, version_string,
  version_from_string, to_string, vector_from_string, no_values, read_text,
}

lookup_name : (m : Metric) → find_metric Metric-discrete name kind order (name m) ≡ some m
unfolding find_metric text_eq
lookup_name Metric.attack_vector = refl
lookup_name _ = refl

name-lacks :
    (m : Metric)
    → (lacks b':' (name m) ≡ true) × (lacks b'/' (name m) ≡ true) × (to_upper (name m) ≡ name m)
unfolding lacks to_upper
name-lacks Metric.attack_vector = (refl, refl, refl)
name-lacks _ = (refl, refl, refl)

kinds_ok : (m : Metric) → codes_ok (kind m) ≡ true
unfolding codes_ok
kinds_ok Metric.attack_vector = refl
kinds_ok _ = refl

order_complete : (m : Metric) → Among m order
order_complete m = ground arith

pub laws : Laws Metric-discrete name kind order
laws = record {
  lookup = lookup_name;
  name_colon = λ m. lacks_sound b':' (name m) (name-lacks m).0;
  name_slash = λ m. lacks_sound b'/' (name m) (name-lacks m).1;
  kinds = kinds_ok;
  complete = order_complete;
}

to_upper-join :
    (parts : List Bytes)
    → All (λ p. to_upper p ≡ p) parts
    → to_upper (join b'/' parts) ≡ join b'/' parts
unfolding to_upper
to_upper-join [] h = refl
to_upper-join (p ∷ []) (h, _) = h
to_upper-join (p ∷ q ∷ ps) (h, hs) = rw (to_upper-append p, h, to_upper-join (q ∷ ps) hs)

version_reads :
    (v : Version)
    → (version_from_string (version_string v) ≡ ok v)
      × (to_upper (version_string v) ≡ version_string v)
      × (lacks b'/' (version_string v) ≡ true)
unfolding version_from_string version_string to_upper lacks
version_reads v30 = (refl, refl, refl)
version_reads v31 = (refl, refl, refl)

-- Each value of the vector is one of its type.
abbrev pub IsValid : Vector → Type 0
IsValid v = (m : Metric) → v.values m < size (kind m)

pub vector_from_string_lem :
    (s : Bytes) → vector_from_string s ≡ read_text (strip_prefix prefix (to_upper s))
unfolding vector_from_string
vector_from_string_lem s = refl

module _ (version : Version) (p : Bytes) (ps : List Bytes) (slashes : All (Lacks b'/') (p ∷ ps))
    (uppers : All (λ q. to_upper q ≡ q) (p ∷ ps)) where
  abbrev rest : Bytes
  rest = version_string version ++ b'/' ∷ join b'/' (p ∷ ps)

  to_upper-rest : to_upper (prefix ++ rest) ≡ prefix ++ rest
  unfolding to_upper
  to_upper-rest = rw (
    to_upper-append (version_string version),
    (version_reads version).1,
    to_upper-join (p ∷ ps) uppers,
  )

  read_back :
      (values : Metric → ℕ)
      → read_parts Metric-discrete name kind order (p ∷ ps) no_values ≡ ok values
      → vector_from_string (prefix ++ rest) ≡ ok (record { version = version; values = values })
  read_back values h = rw (
    vector_from_string_lem,
    to_upper-rest,
    strip_prefix-append prefix rest,
    cut_first_lem b'/' (version_string version) (join b'/' (p ∷ ps))
        (lacks_sound b'/' (version_string version) (version_reads version).2),
    (version_reads version).0,
    split-join b'/' p ps slashes,
    h,
  )

part_upper :
    (v : Vector) (k : Metric) (c : Code (kind k) (v.values k))
    → to_upper (name k ++ b':' ∷ c.text) ≡ name k ++ b':' ∷ c.text
unfolding to_upper
part_upper v k c = rw (to_upper-append (name k), (name-lacks k).2, c.is_upper)

-- A vector in which each value is one of its type, and one metric at least is defined, has a text, and
-- `VectorFromString` reads this text as the same vector.
pub vector_from_string-to_string :
    (v : Vector) (m : Metric)
    → IsValid v
    → v.values m ≢ 0
    → (s : Bytes) × (to_string v ≡ some s) × (vector_from_string s ≡ ok v)
vector_from_string-to_string v m valid n =
    let (parts, w, r) = write_read laws order v.values valid in
    go parts w r (write_parts-ne-nil laws m v.values valid n order (order_complete m))
      (write_parts-All laws (Lacks b'/') v.values valid part_slash order parts w)
      (write_parts-All laws (λ q. to_upper q ≡ q) v.values valid (part_upper v) order parts w)
  where
    part_slash :
        (k : Metric) (c : Code (kind k) (v.values k)) → Lacks b'/' (name k ++ b':' ∷ c.text)
    part_slash k c =
        All-append _ (name k) (b':' ∷ c.text) (laws.name_slash k) (omega arith, c.no_slash)

    go :
        (parts : List Bytes)
        → write_parts Metric-discrete name kind order v.values ≡ some parts
        → ((acc : Metric → ℕ)
            → read_parts Metric-discrete name kind order parts acc
              ≡ ok (overlay laws order v.values acc))
        → write_parts Metric-discrete name kind order v.values ≢ some []
        → All (Lacks b'/') parts
        → All (λ q. to_upper q ≡ q) parts
        → (s : Bytes) × (to_string v ≡ some s) × (vector_from_string s ≡ ok v)
    go [] w r ne slashes uppers = absurd (ne w)
    go (p ∷ ps) w r ne slashes uppers = (
      prefix ++ (version_string v.version ++ b'/' ∷ join b'/' (p ∷ ps)),
      unfold to_string in rw w,
      read_back v.version p ps slashes uppers v.values
          (r no_values ∙ ap ok (overlay_all laws v.values)),
    )

-- A text with the prefix and no slash behind it makes `VectorFromString` panic.
pub vector_from_string-panic :
    (s : Bytes) → Lacks b'/' s → vector_from_string (prefix ++ s) ≡ err panic
vector_from_string-panic s h =
    let e : to_upper (prefix ++ s) ≡ prefix ++ to_upper s = unfold to_upper in refl in
    rw (
      vector_from_string_lem,
      e,
      strip_prefix-append prefix (to_upper s),
      cut_first-none b'/' (to_upper s) (to_upper-Lacks s h),
    )
