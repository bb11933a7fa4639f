-- ===== src/Prelude/Cut.antt =====
-- Cutting texts: `strings.IndexByte`, `LastIndexByte`, `HasSuffix` and `Split`, with the slices that
-- the source takes at the index.
use Prim.Native.Nat.{ℕ}
use mathlib.Core.Path.{◌≡◌, refl, ap, ◌∙◌}
use mathlib.Core.Logic.{◌≢◌, inl, inr}
use mathlib.Core.Bool.{false}
use mathlib.Core.Option.{Option, none, some}
use mathlib.Core.List.{List, [], ◌∷◌, ◌++◌}
use native.Mathlib.Omega.{arith}
use nvdtools.Prelude.Tests.{◌==◌, if◌then◌else◌, Bool-cases}
use nvdtools.Prelude.Texts.{Bytes, length, length-append, text_eq, text_eq_iff, text_eq_refl, All}

-- No byte of the text is `b`.
abbrev pub Lacks : ℕ → Bytes → Type 0
Lacks b = All (λ c. c ≢ b)

abbrev pub cons_front : ℕ → Option (Bytes × Bytes) → Option (Bytes × Bytes)
cons_front c none = none
cons_front c (some (x, y)) = some (c ∷ x, y)

-- `i := strings.IndexByte(s, b)`, then `s[:i]` and `s[i+1:]`
unfoldable pub cut_first : ℕ → Bytes → Option (Bytes × Bytes)
cut_first b [] = none
cut_first b (c ∷ s) = if c == b then some ([], s) else cons_front c (cut_first b s)

abbrev pub or_here : Option (Bytes × Bytes) → ℕ → ℕ → Bytes → Option (Bytes × Bytes)
or_here (some (x, y)) b c s = some (c ∷ x, y)
or_here none b c s = if c == b then some ([], s) else none

-- `i := strings.LastIndexByte(s, b)`, then `s[:i]` and `s[i+1:]`
unfoldable pub cut_last : ℕ → Bytes → Option (Bytes × Bytes)
cut_last b [] = none
cut_last b (c ∷ s) = or_here (cut_last b s) b c s

-- `strings.TrimSuffix`
unfoldable pub trim_suffix : Bytes → Bytes → Bytes
trim_suffix suffix [] = []
trim_suffix suffix (c ∷ s) = if text_eq (c ∷ s) suffix then [] else c ∷ trim_suffix suffix s

-- `strings.Split(s, sep)` for a separator of one byte. It gives one part at least.
abbrev pub cons_part : ℕ → List Bytes → List Bytes
cons_part c [] = (c ∷ []) ∷ []
cons_part c (p ∷ ps) = (c ∷ p) ∷ ps

unfoldable pub split : ℕ → Bytes → List Bytes
split sep [] = [] ∷ []
split sep (c ∷ s) = if c == sep then [] ∷ split sep s else cons_part c (split sep s)

-- `strings.Join(parts, sep)`
abbrev pub join : ℕ → List Bytes → Bytes
join sep [] = []
join sep (p ∷ []) = p
join sep (p ∷ q ∷ ps) = p ++ sep ∷ join sep (q ∷ ps)

pub cut_first_lem : (b : ℕ) (x y : Bytes) → Lacks b x → cut_first b (x ++ b ∷ y) ≡ some (x, y)
unfolding cut_first
cut_first_lem b [] y h = ground arith
cut_first_lem b (c ∷ x) y (hc, hx) = ground (arith, cut_first_lem b x y hx)

pub cut_first-none : (b : ℕ) (x : Bytes) → Lacks b x → cut_first b x ≡ none
unfolding cut_first
cut_first-none b [] h = refl
cut_first-none b (c ∷ x) (hc, hx) = ground (arith, cut_first-none b x hx)

pub cut_last-none : (b : ℕ) (x : Bytes) → Lacks b x → cut_last b x ≡ none
unfolding cut_last
cut_last-none b [] h = refl
cut_last-none b (c ∷ x) (hc, hx) = ground (arith, cut_last-none b x hx)

pub cut_last_lem : (b : ℕ) (x y : Bytes) → Lacks b y → cut_last b (x ++ b ∷ y) ≡ some (x, y)
unfolding cut_last
cut_last_lem b [] y h = ground (arith, cut_last-none b y h)
cut_last_lem b (c ∷ x) y h = ground (arith, cut_last_lem b x y h)

text_eq-longer : (c : ℕ) (s suffix : Bytes) → text_eq (c ∷ (s ++ suffix)) suffix ≡ false
text_eq-longer c s suffix = elim (Bool-cases (text_eq (c ∷ (s ++ suffix)) suffix)) [
  | inl h ↦ absurd (
      omega
        (arith, ap length ((text_eq_iff (c ∷ (s ++ suffix)) suffix).0 h), length-append s suffix))
  | inr h ↦ h
]

pub trim_suffix-append : (s suffix : Bytes) → trim_suffix suffix (s ++ suffix) ≡ s
unfolding trim_suffix
trim_suffix-append [] [] = refl
trim_suffix-append [] (c ∷ s) = rw (text_eq_refl (c ∷ s))
trim_suffix-append (c ∷ s) suffix = rw (text_eq-longer c s suffix, trim_suffix-append s suffix)

split-Lacks : (sep : ℕ) (p : Bytes) → Lacks sep p → split sep p ≡ p ∷ []
unfolding split
split-Lacks sep [] h = refl
split-Lacks sep (c ∷ p) (hc, hp) = ground (arith, split-Lacks sep p hp)

split-append : (sep : ℕ) (p s : Bytes) → Lacks sep p → split sep (p ++ sep ∷ s) ≡ p ∷ split sep s
unfolding split
split-append sep [] s h = ground arith
split-append sep (c ∷ p) s (hc, hp) = ground (arith, split-append sep p s hp)

-- Splitting a join gives the parts back, if there is a part and none holds the separator.
pub split-join :
    (sep : ℕ) (p : Bytes) (ps : List Bytes)
    → All (Lacks sep) (p ∷ ps)
    → split sep (join sep (p ∷ ps)) ≡ p ∷ ps
split-join sep p [] (h, _) = split-Lacks sep p h
split-join sep p (q ∷ ps) (h, hs) =
    split-append sep p (join sep (q ∷ ps)) h ∙ ap (λ r. p ∷ r) (split-join sep q ps hs)
