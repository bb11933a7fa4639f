-- ===== src/Sql/Marks.antt =====
-- The question marks of a text.
use nvdtools.Prelude.{ℕ, suc, ◌+◌, [], ◌∷◌, ◌++◌, Bytes, ◌==◌, if◌then◌else◌, ◌≡◌, arith}

unfoldable pub marks : Bytes → ℕ
marks [] = 0
marks (c ∷ s) = if c == b'?' then suc (marks s) else marks s

pub marks-append : (s t : Bytes) → marks (s ++ t) ≡ marks s + marks t
unfolding marks
marks-append [] t = omega arith
marks-append (c ∷ s) t = ground (arith, marks-append s t)
