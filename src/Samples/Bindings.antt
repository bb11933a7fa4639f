-- ===== src/Samples/Bindings.antt =====
-- The formatted strings of names at concrete inputs.
use nvdtools.Prelude.{◌≡◌, refl, inl, inr, [], ◌∷◌, codes}
use nvdtools.Wfn.Attributes.{Attributes, any, new_attributes}
use nvdtools.Wfn.Fragment.{Reading, read, failed, panicked}
use nvdtools.Wfn.FmtString.{bind_to_fmt_string, unbind_fmt_string}
use nvdtools.Wfn.Spelled.{plain, quoted, wild}
use nvdtools.Wfn.FmtRound.{IsValue, unbind_fmt_string-bind}

abbrev c_plus_plus : Attributes
c_plus_plus = record (new_attributes any) {
  part = codes "a";
  vendor = codes "-";
  product = codes "c\\+\\+";
  version = codes "1\\.*";
}

product-IsValue : IsValue (codes "c\\+\\+")
unfolding nvdtools.Wfn.Fragment.passes_plain
product-IsValue = inr (
    inr (
      plain b'c' ∷ quoted b'+' ∷ quoted b'+' ∷ [],
      refl,
      (refl, ((refl, refl), ((refl, refl), tt))),
      refl,
    ))

version-IsValue : IsValue (codes "1\\.*")
unfolding nvdtools.Wfn.Fragment.passes_plain
version-IsValue = inr (
    inr (
      plain b'1' ∷ quoted b'.' ∷ wild b'*' ∷ [],
      refl,
      (refl, ((refl, refl), ((refl, refl), tt))),
      refl,
    ))

part-IsValue : IsValue (codes "a")
unfolding nvdtools.Wfn.Fragment.passes_plain
part-IsValue = inr (inr (plain b'a' ∷ [], refl, (refl, tt), refl))

unbind_fmt_string-bind_example :
    unbind_fmt_string (bind_to_fmt_string c_plus_plus) ≡ read c_plus_plus
unbind_fmt_string-bind_example = unbind_fmt_string-bind c_plus_plus (
  part-IsValue,
  (
    inr (inl refl),
    (
      product-IsValue,
      (
        version-IsValue,
        (inl refl, (inl refl, (inl refl, (inl refl, (inl refl, (inl refl, (inl refl, tt))))))),
      ),
    ),
  ),
)

-- A quoted backslash before an underscore loses one backslash, and a value that starts with a quoted
-- colon is cut behind the backslash.
backslash_lost :
    unbind_fmt_string
      (bind_to_fmt_string (record (new_attributes any) { product = codes "a\\\\_b" }))
    ≡ read (record (new_attributes any) { product = codes "a\\_b" })
unfolding bind_to_fmt_string unbind_fmt_string
backslash_lost = refl

colon_first :
    unbind_fmt_string (bind_to_fmt_string (record (new_attributes any) { part = codes "\\:b" }))
    ≡ read (record (new_attributes any) { part = codes "\\"; vendor = codes "b" })
unfolding bind_to_fmt_string unbind_fmt_string
colon_first = refl

backslash_last : unbind_fmt_string (codes "cpe:2.3:ab\\") ≡ panicked
unfolding unbind_fmt_string
backslash_last = refl

empty_value : unbind_fmt_string (codes "cpe:2.3:a::b") ≡ failed
unfolding unbind_fmt_string
empty_value = refl
