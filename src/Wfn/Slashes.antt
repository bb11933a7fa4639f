-- ===== src/Wfn/Slashes.antt =====
-- wfn/fsb.go: `StripSlashes`.
use nvdtools.Prelude.{ℕ, Bool, ◌&&◌, ◌||◌, [], ◌∷◌, Bytes, codes, ◌==◌, if◌then◌else◌, ◌≡◌, refl}
use nvdtools.Wfn.Wildcard.{backslash}

-- The punctuation that passes unquoted.
unfoldable pub passes_unquoted : ℕ → Bool
passes_unquoted c = c == b'.' || c == b'_' || c == b'-'

-- A backslash before such a byte is left out, and the byte itself is read in the next round.
unfoldable pub strip_slashes : Bytes → Bytes
unfolding passes_unquoted
strip_slashes [] = []
strip_slashes (c ∷ []) = c ∷ []
strip_slashes (c ∷ d ∷ s) =
    let rest = strip_slashes (d ∷ s) in
    if c == backslash && passes_unquoted d then rest else c ∷ rest

version_dots : strip_slashes (codes "1\\.2\\!") ≡ codes "1.2\\!"
unfolding strip_slashes
version_dots = refl
