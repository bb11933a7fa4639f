-- ===== src/Wfn/Parse.antt =====
-- wfn/wfn.go: reading a name in either binding.
--
-- The source visits its two parsers in no fixed order. No text has both prefixes, so the order here is
-- one of them.
use nvdtools.Prelude.{Option, none, some, ◌++◌, Bytes, codes, strip_prefix, ◌≡◌, refl}
use nvdtools.Wfn.Attributes.{Attributes, any, new_attributes}
use nvdtools.Wfn.Fragment.{Reading, read}
use nvdtools.Wfn.FmtString.{fsb_prefix, unbind_fmt_string}
use nvdtools.Wfn.UriName.{Progress, at_place, no_fuel, unbind_uri}

abbrev pub uri_prefix : Bytes
uri_prefix = codes "cpe:/"

-- The reading of a URI never runs out of fuel.
abbrev pub reading_of : Progress → Reading Attributes
reading_of (at_place a p) = read a
reading_of Progress.failed = Reading.failed
reading_of no_fuel = Reading.failed

abbrev pub parse_by : Bytes → Option Bytes → Option Bytes → Reading Attributes
unfolding unbind_uri unbind_fmt_string
parse_by s (some t) fsb = reading_of (unbind_uri s)
parse_by s none (some t) = unbind_fmt_string s
parse_by s none none = Reading.failed

-- `Parse`
unfoldable pub parse : Bytes → Reading Attributes
unfolding parse_by strip_prefix
parse s = parse_by s (strip_prefix uri_prefix s) (strip_prefix fsb_prefix s)

-- A text with one prefix does not have the other.
one_prefix :
    (t : Bytes)
    → (strip_prefix fsb_prefix (uri_prefix ++ t) ≡ none)
      × (strip_prefix uri_prefix (fsb_prefix ++ t) ≡ none)
unfolding strip_prefix
one_prefix t = (refl, refl)

linux_read :
    parse (codes "cpe:/o:redhat:enterprise_linux:8")
    ≡ read (record (new_attributes any) {
      part = codes "o";
      vendor = codes "redhat";
      product = codes "enterprise_linux";
      version = codes "8";
    })
unfolding parse
linux_read = refl
