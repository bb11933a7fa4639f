-- ===== src/Wfn/Wildcard.antt =====
-- wfn/matching.go: `HasWildcard`, and the same test in one pass.
use nvdtools.Prelude.{
  ℕ, ◌≡◌, refl, Bool, true, false, not, ◌&&◌, ◌||◌, [], ◌∷◌, Bytes, ◌==◌, if◌then◌else◌, arith,
}

abbrev pub backslash : ℕ
backslash = 92

abbrev pub is_wildcard : ℕ → Bool
is_wildcard c = c == b'*' || c == b'?'

-- The inner loop, over the bytes before a wildcard from the last one back: whether their number of
-- backslashes is odd.
unfoldable pub quoted_by : Bytes → Bool → Bool
quoted_by [] quoted = quoted
quoted_by (c ∷ before) quoted = if c == backslash then quoted_by before (not quoted) else quoted

-- The outer loop. `before` holds the bytes read, the last one first.
unfoldable pub scan_wildcard : Bytes → Bytes → Bool
scan_wildcard before [] = false
scan_wildcard before (c ∷ s) =
    if is_wildcard c && not (quoted_by before false) then true else scan_wildcard (c ∷ before) s

unfoldable pub has_wildcard : Bytes → Bool
unfolding scan_wildcard quoted_by
has_wildcard s = scan_wildcard [] s

-- Whether a text has a wildcard, where `escaped` says that the byte before is an open backslash.
unfoldable pub has_unescaped : Bool → Bytes → Bool
has_unescaped escaped [] = false
has_unescaped escaped (c ∷ s) =
    if is_wildcard c && not escaped
    then true
    else has_unescaped (if c == backslash then not escaped else false) s

quoted_by-not : (before : Bytes) (q : Bool) → quoted_by before (not q) ≡ not (quoted_by before q)
unfolding quoted_by
quoted_by-not [] q = refl
quoted_by-not (c ∷ before) q = ground (arith, quoted_by-not before (not q))

quoted_by-cons :
    (c : ℕ) (before : Bytes)
    → quoted_by (c ∷ before) false
      ≡ (if c == backslash then not (quoted_by before false) else false)
unfolding quoted_by
quoted_by-cons c before = ground (arith, quoted_by-not before false)

scan_wildcard_lem :
    (s before : Bytes) → scan_wildcard before s ≡ has_unescaped (quoted_by before false) s
unfolding scan_wildcard has_unescaped
scan_wildcard_lem [] before = refl
scan_wildcard_lem (c ∷ s) before = rw (scan_wildcard_lem s (c ∷ before), quoted_by-cons c before)

-- Counting the backslashes back from each wildcard finds what one pass from the left finds that
-- remembers whether the last byte was an unescaped backslash.
pub has_wildcard_iff : (s : Bytes) → has_wildcard s ≡ has_unescaped false s
unfolding has_wildcard
has_wildcard_iff s = unfold quoted_by in scan_wildcard_lem s []
