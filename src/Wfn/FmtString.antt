-- ===== src/Wfn/FmtString.antt =====
-- wfn/fsb.go: names as formatted strings, `cpe:2.3:` and eleven values.
use nvdtools.Prelude.{
  Option, none, some, List, [], ◌∷◌, ◌++◌, Bytes, codes, strip_prefix, join, map, tail, ◌≡◌, refl,
}
use nvdtools.Wfn.Attributes.{Attributes, any, new_attributes}
use nvdtools.Wfn.Fragment.{Reading, read, failed, ◌>>=◌, bind_value_fs, unbind_value_fs}

abbrev pub fsb_prefix : Bytes
fsb_prefix = codes "cpe:2.3:"

-- The values in the order of the formatted string.
abbrev pub values : Attributes → List Bytes
values a =
    a.part ∷ a.vendor ∷ a.product ∷ a.version ∷ a.update ∷ a.edition ∷ a.language ∷ a.sw_edition
    ∷ a.target_sw ∷ a.target_hw ∷ a.other ∷ []

-- `BindToFmtString`
unfoldable pub bind_to_fmt_string : Attributes → Bytes
unfolding bind_value_fs
bind_to_fmt_string a = fsb_prefix ++ join b':' (map bind_value_fs (values a))

-- The assignments of the cases of the `switch` on `partN`.
abbrev pub setters : List (Attributes → Bytes → Attributes)
setters =
    (λ a v. record a { part = v })
    ∷ (λ a v. record a { vendor = v })
    ∷ (λ a v. record a { product = v })
    ∷ (λ a v. record a { version = v })
    ∷ (λ a v. record a { update = v })
    ∷ (λ a v. record a { edition = v })
    ∷ (λ a v. record a { language = v })
    ∷ (λ a v. record a { sw_edition = v })
    ∷ (λ a v. record a { target_sw = v })
    ∷ (λ a v. record a { target_hw = v })
    ∷ (λ a v. record a { other = v })
    ∷ []

-- The loop over the parts, with the cases that are left. `i + 1` skips the byte at which a value
-- ended. Behind the last case the loop goes on to the end of the string and changes nothing.
unfoldable pub unbind_parts :
    List (Attributes → Bytes → Attributes) → Attributes → Bytes → Reading Attributes
unfolding unbind_value_fs
unbind_parts [] a s = read a
unbind_parts (set ∷ rest) a [] = read a
unbind_parts (set ∷ rest) a (c ∷ s) =
    unbind_value_fs b':' (c ∷ s) >>= λ r. unbind_parts rest (set a r.0) (tail r.1)

abbrev pub unbind_after : Option Bytes → Reading Attributes
unbind_after none = failed
unbind_after (some s) = unbind_parts setters (new_attributes any) s

-- `UnbindFmtString`
unfoldable pub unbind_fmt_string : Bytes → Reading Attributes
unfolding unbind_parts strip_prefix
unbind_fmt_string s = unbind_after (strip_prefix fsb_prefix s)

abbrev office : Attributes
office = record (new_attributes any) {
  part = codes "a";
  vendor = codes "big\\$money";
  product = codes "tools";
  version = codes "1\\.*";
  language = codes "-";
}

office_bound : bind_to_fmt_string office ≡ codes "cpe:2.3:a:big\\$money:tools:1.*:*:*:-:*:*:*:*"
unfolding bind_to_fmt_string
office_bound = refl

office_read :
    unbind_fmt_string (codes "cpe:2.3:a:big\\$money:tools:1.*:*:*:-:*:*:*:*") ≡ read office
unfolding unbind_fmt_string
office_read = refl
