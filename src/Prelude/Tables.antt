-- ===== src/Prelude/Tables.antt =====
-- Tables, checks of all small numbers, and letter case.
use Prim.Native.Nat.{ℕ, zero, suc, ◌-◌, ◌<◌}
use mathlib.Core.Path.{◌≡◌, refl}
use mathlib.Core.Bool.{Bool, true, not, ◌&&◌}
use mathlib.Core.Option.{Option, none, some}
use mathlib.Core.List.{List, [], ◌∷◌, ◌++◌}
use native.Mathlib.Omega.{arith}
use nvdtools.Prelude.Tests.{◌==◌, leb, if◌then◌else◌}
use nvdtools.Prelude.Texts.{Bytes, text_eq}
use nvdtools.Prelude.Cut.{Lacks}

-- The item at an index, or `none` out of range, where Go panics.
abbrev pub get_elem? {ℓ} : {A : Type ℓ} → List A → ℕ → Option A
get_elem? [] i = none
get_elem? (x ∷ xs) zero = some x
get_elem? (x ∷ xs) (suc i) = get_elem? xs i

abbrev pub next_index : Option ℕ → Option ℕ
next_index none = none
next_index (some i) = some (suc i)

-- The first index of a text (cvss3/common.go, cvss2/common.go).
unfoldable pub find_index : Bytes → List Bytes → Option ℕ
unfolding text_eq
find_index s [] = none
find_index s (t ∷ ts) = if text_eq t s then some 0 else next_index (find_index s ts)

-- `p` holds of each number below `n`.
unfoldable pub all_below : ℕ → (ℕ → Bool) → Bool
all_below zero p = true
all_below (suc n) p = p n && all_below n p

pub all_below_sound : (n : ℕ) (p : ℕ → Bool) (x : ℕ) → all_below n p ≡ true → x < n → p x ≡ true
unfolding all_below
all_below_sound zero p x h k = absurd (omega arith)
all_below_sound (suc n) p x h k = ground (arith, all_below_sound n p x)

unfoldable pub lacks : ℕ → Bytes → Bool
lacks b [] = true
lacks b (c ∷ s) = not (c == b) && lacks b s

pub lacks_sound : (b : ℕ) (s : Bytes) → lacks b s ≡ true → Lacks b s
unfolding lacks
lacks_sound b [] h = tt
lacks_sound b (c ∷ s) h = (ground arith, lacks_sound b s (ground arith))

-- `strings.ToUpper` on ASCII text
unfoldable pub upper : ℕ → ℕ
upper c = if leb b'a' c && leb c b'z' then c - 32 else c

unfoldable pub to_upper : Bytes → Bytes
unfolding upper
to_upper [] = []
to_upper (c ∷ s) = upper c ∷ to_upper s

pub to_upper-append : (s t : Bytes) → to_upper (s ++ t) ≡ to_upper s ++ to_upper t
unfolding to_upper
to_upper-append [] t = refl
to_upper-append (c ∷ s) t = rw (to_upper-append s t)

pub to_upper-Lacks : (s : Bytes) → Lacks b'/' s → Lacks b'/' (to_upper s)
unfolding to_upper
to_upper-Lacks [] h = tt
to_upper-Lacks (c ∷ s) (hc, hs) = (ground arith, to_upper-Lacks s hs)

-- `strings.HasPrefix` with `TrimPrefix`: what follows the prefix, if it is there.
unfoldable pub strip_prefix : Bytes → Bytes → Option Bytes
strip_prefix [] s = some s
strip_prefix (b ∷ prefix) [] = none
strip_prefix (b ∷ prefix) (c ∷ s) = if c == b then strip_prefix prefix s else none

pub strip_prefix-append : (prefix s : Bytes) → strip_prefix prefix (prefix ++ s) ≡ some s
unfolding strip_prefix
strip_prefix-append [] s = refl
strip_prefix-append (b ∷ prefix) s = ground (arith, strip_prefix-append prefix s)
