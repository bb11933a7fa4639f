-- ===== src/Wfn/UriName.antt =====
-- wfn/uri.go: binding a name to a URI, and reading one. The text is ASCII.
use nvdtools.Prelude.{
  ℕ, zero, suc, ◌+◌, Bool, true, false, ◌&&◌, Option, none, some, List, [], ◌∷◌, ◌++◌, Bytes, ◌==◌,
  leb, if◌then◌else◌, length, text_eq, join, strip_prefix, codes, ◌≡◌, refl,
}
use nvdtools.Wfn.Attributes.{Attributes, any, new_attributes}
use nvdtools.Rpm.Parse.{to_lower}
use nvdtools.Wfn.Uri.{
  bind_value_uri, Place, advance, Unbound, value, bad, out_of_fuel, unbind_value_uri_at_till,
}

abbrev pub all_empty : List Bytes → Bool
all_empty [] = true
all_empty ([] ∷ ss) = all_empty ss
all_empty ((c ∷ s) ∷ ss) = false

-- `pack`, of a first value and the others
unfoldable pub pack : Bytes → List Bytes → Bytes
pack s ss = if all_empty ss then s else b'~' ∷ join b'~' (s ∷ ss)

abbrev pub all_na : List Bytes → Bool
all_na [] = true
all_na (s ∷ ss) = text_eq s (codes "-") && all_na ss

-- The part for the edition.
unfoldable pub bind_edition : Attributes → Bytes
unfolding pack bind_value_uri text_eq
bind_edition a =
    let first = bind_value_uri a.edition in
    let others =
      bind_value_uri a.sw_edition
      ∷ bind_value_uri a.target_sw
      ∷ bind_value_uri a.target_hw
      ∷ bind_value_uri a.other
      ∷ [] in
    if all_na (first ∷ others) then codes "-" else pack first others

-- Empty parts at the end are left out.
abbrev pub keep_part : Bytes → List Bytes → List Bytes
keep_part [] [] = []
keep_part [] (t ∷ ts) = [] ∷ t ∷ ts
keep_part (c ∷ s) ts = (c ∷ s) ∷ ts

abbrev pub drop_empty_end : List Bytes → List Bytes
drop_empty_end [] = []
drop_empty_end (s ∷ ss) = keep_part s (drop_empty_end ss)

-- `BindToURI`
unfoldable pub bind_to_uri : Attributes → Bytes
unfolding bind_value_uri bind_edition
bind_to_uri a =
    codes "cpe:/"
    ++ join b':' (
        drop_empty_end (
          bind_value_uri a.part
          ∷ bind_value_uri a.vendor
          ∷ bind_value_uri a.product
          ∷ bind_value_uri a.version
          ∷ bind_value_uri a.update
          ∷ bind_edition a
          ∷ bind_value_uri a.language
          ∷ []))

abbrev pub set_part : ℕ → Bytes → Attributes → Attributes
set_part n v a =
    if n == 0
    then record a { part = v }
    else if n == 1
    then record a { vendor = v }
    else if n == 2
    then record a { product = v }
    else if n == 3
    then record a { version = v }
    else if n == 4
    then record a { update = v }
    else if n == 5
    then record a { edition = v }
    else record a { language = v }

abbrev pub set_subpart : ℕ → Bytes → Attributes → Attributes
set_subpart n v a =
    if n == 0
    then record a { edition = v }
    else if n == 1
    then record a { sw_edition = v }
    else if n == 2
    then record a { target_sw = v }
    else if n == 3
    then record a { target_hw = v }
    else record a { other = v }

-- What a part leaves: the name and where the index stands, or an error.
pub data Progress : Type 0 where
  at_place : Attributes → Place → Progress
  failed no_fuel : Progress

abbrev pub after_part : ℕ → Attributes → Unbound → Progress
after_part n a (value v p) = at_place (set_part n v a) p
after_part n a (bad p) = failed
after_part n a out_of_fuel = no_fuel

-- The error of a value of the packed edition is tested after the loop only: the next value replaces it.
abbrev pub after_loop : Bool → Attributes → Place → Progress
after_loop true a p = failed
after_loop false a p = at_place a p

abbrev pub after_subpart :
    ℕ → Attributes → Unbound → (Bool → Attributes → Place → Progress) → Progress
after_subpart n a (value v p) onward = onward false (set_subpart n v a) (advance 1 p)
after_subpart n a (bad p) onward = onward true (set_subpart n [] a) (advance 1 p)
after_subpart n a out_of_fuel onward = no_fuel

abbrev pub at_subpart : Place → Progress → (ℕ → Progress) → Progress
at_subpart p ended onward = elim (p.rest) [ [] ↦ ended | c ∷ r ↦ onward c ]

-- The loop `edition23`
unfoldable pub unbind_packed : ℕ → ℕ → Bool → Attributes → Place → Progress
unfolding unbind_value_uri_at_till
unbind_packed zero n err a p = no_fuel
unbind_packed (suc fuel) n err a p = at_subpart p (after_loop err a p) (λ c.
    if leb 5 n
    then after_loop err a p
    else after_subpart n a (unbind_value_uri_at_till (if n == 4 then b':' else b'~') p)
        (λ e a' p'. unbind_packed fuel (n + 1) e a' p'))

-- One part, which starts with a byte.
unfoldable pub unbind_part : ℕ → Attributes → Place → ℕ → Progress
unfolding unbind_packed unbind_value_uri_at_till
unbind_part n a p c =
    if leb 7 n
    then at_place a p
    else if (n == 5) && (c == b'~')
    then unbind_packed 6 0 false a (advance 1 p)
    else after_part n a (unbind_value_uri_at_till b':' p)

abbrev pub go_on : Progress → (Attributes → Place → Progress) → Progress
go_on (at_place a p) onward = onward a p
go_on failed onward = failed
go_on no_fuel onward = no_fuel

abbrev pub at_part : Attributes → Place → (ℕ → Progress) → Progress
at_part a p onward = elim (p.rest) [ [] ↦ at_place a p | c ∷ r ↦ onward c ]

-- The loop over the parts.
unfoldable pub unbind_parts : ℕ → ℕ → Attributes → Place → Progress
unfolding unbind_part
unbind_parts zero n a p = no_fuel
unbind_parts (suc fuel) n a p =
    at_part a p
      (λ c. go_on (unbind_part n a p c) (λ a' p'. unbind_parts fuel (n + 1) a' (advance 1 p')))

-- `UnbindURI` after the prefix, on a text in lower case
unfoldable pub unbind_uri_body : Bytes → Progress
unfolding unbind_parts
unbind_uri_body s =
    unbind_parts (length s + 1) 0 (new_attributes any) (record { before = []; rest = s })

abbrev pub after_prefix : Option Bytes → Progress
after_prefix none = failed
after_prefix (some s) = unbind_uri_body (to_lower s)

-- `UnbindURI`
unfoldable pub unbind_uri : Bytes → Progress
unfolding unbind_uri_body to_lower strip_prefix
unbind_uri s = after_prefix (strip_prefix (codes "cpe:/") s)

abbrev pub name_of : Progress → Option Attributes
name_of (at_place a p) = some a
name_of failed = none
name_of no_fuel = none

-- A language behind a packed edition loses its first byte.
language_cut :
    name_of (unbind_uri (codes "cpe:/a:b:c:1:2:~x~y~z~v~w:en"))
    ≡ some (record {
      part = codes "a";
      vendor = codes "b";
      product = codes "c";
      version = codes "1";
      update = codes "2";
      edition = codes "x";
      sw_edition = codes "y";
      target_sw = codes "z";
      target_hw = codes "v";
      other = codes "w";
      language = codes "n";
    })
unfolding unbind_uri
language_cut = refl
