-- ===== src/Wfn/Wfnize.antt =====
-- wfn/wfn.go: `WFNize`, on ASCII text, where a rune is a byte.
use nvdtools.Prelude.{
  ℕ, Bool, true, false, not, ◌||◌, [], ◌∷◌, Bytes, codes, ◌==◌, if◌then◌else◌, lacks, map,
}
use nvdtools.Wfn.Wildcard.{backslash, is_wildcard}
use nvdtools.Wfn.Fragment.{Reading, read, failed, panicked, passes_plain, add_slashes}

abbrev pub underscored : Bytes → Bytes
underscored s = map (λ c. if c == b' ' then b'_' else c) s

-- `strings.IndexByte(allowedPunct, c) != -1`
unfoldable pub allowed_punct : ℕ → Bool
unfolding lacks
allowed_punct c = not (lacks c (codes "-!\"#$%&'()+,./:;<=>@[]^`{|}!~"))

-- The loop that removes illegal characters and quotes wildcards, behind the byte `before`.
unfoldable pub clean : Bool → ℕ → Bytes → Bytes
unfolding passes_plain allowed_punct
clean first before [] = []
clean first before (c ∷ s) =
    let rest = clean false c s in
    if passes_plain c || allowed_punct c
    then c ∷ rest
    else if is_wildcard c
    then (if first || not (before == backslash) then backslash ∷ c ∷ rest else c ∷ rest)
    else rest

abbrev pub value_of : Reading (Bytes × Bytes) → Reading Bytes
value_of (read (v, rest)) = read v
value_of failed = failed
value_of panicked = panicked

unfoldable pub wfnize : Bytes → Reading Bytes
unfolding clean add_slashes
wfnize s = value_of (add_slashes true 0 false (clean true 0 (underscored s)))
