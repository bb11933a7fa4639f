-- ===== src/Rpm/Compare.antt =====
-- rpm/compare.go: the comparison of labels and of version strings.
--
-- Texts are ASCII: `unicode.IsLetter` and `unicode.IsDigit` are given on that range, where the
-- trimming by runes and the segments by bytes read the same characters.
use nvdtools.Prelude.{
  ℕ, zero, suc, ◌+◌, Bool, false, not, ◌&&◌, ◌||◌, Option, none, some, [], ◌∷◌, Bytes, codes, ◌==◌,
  leb, if◌then◌else◌, length, is_empty, tail, text_eq, take_while, drop_while, Ordering, lt, eq, gt,
  compare, compare_texts, then_by, ◌≡◌, refl,
}

-- `Label` (rpm/parse.go)
pub record Label : Type 0 where
  pub epoch : Bytes
  pub version : Bytes
  pub release : Bytes

abbrev pub tilde : ℕ
tilde = b'~'

-- `unicode.IsDigit`
unfoldable pub is_digit : ℕ → Bool
is_digit c = leb b'0' c && leb c b'9'

-- `unicode.IsLetter`
unfoldable pub is_letter : ℕ → Bool
is_letter c = leb b'A' c && leb c b'Z' || leb b'a' c && leb c b'z'

unfoldable pub isnt_alnum_or_tilde : ℕ → Bool
unfolding is_digit is_letter
isnt_alnum_or_tilde c = not (is_letter c || is_digit c || c == tilde)

unfoldable pub is_zero : ℕ → Bool
is_zero c = c == b'0'

abbrev pub compare_len : Bytes → Bytes → Ordering
compare_len s t = compare (length s) (length t)

abbrev pub starts_with_tilde : Bytes → Bool
starts_with_tilde [] = false
starts_with_tilde (c ∷ s) = c == tilde

-- The test that cuts the segments: that of the first byte of `v1`.
unfoldable pub seg_func : Bytes → ℕ → Bool
seg_func [] = is_letter
seg_func (c ∷ s) = if is_digit c then is_digit else is_letter

unfoldable pub is_numeric : Bytes → Bool
is_numeric [] = false
is_numeric (c ∷ s) = is_digit c

-- `if c := …; c != 0 { return c }`, and then what follows.
unfoldable pub or_else : Option Ordering → Option Ordering → Option Ordering
or_else none d = none
or_else (some lt) d = some lt
or_else (some gt) d = some gt
or_else (some eq) d = d

-- Steps 7 and 8 on the two segments: 0 to go on, or the answer.
unfoldable pub compare_segments : Bool → Bytes → Bytes → Ordering
compare_segments numeric seg1 seg2 =
    let a = if numeric then drop_while is_zero seg1 else seg1 in
    let b = if numeric then drop_while is_zero seg2 else seg2 in
    then_by (if numeric then compare_len a b else eq) (compare_texts a b)

-- Steps 5 to 8, on texts that start with a letter or a digit. `next` is the next round.
unfoldable pub segments : (Bytes → Bytes → Option Ordering) → Bytes → Bytes → Option Ordering
segments next v1 v2 =
    let f = seg_func v1 in
    let seg1 = take_while f v1 in
    let seg2 = take_while f v2 in
    if is_empty seg2
    then (if is_numeric v1 then some gt else some lt)
    else or_else (some (compare_segments (is_numeric v1) seg1 seg2))
        (next (drop_while f v1) (drop_while f v2))

-- One round of the loop, after both texts are trimmed.
unfoldable pub round : (Bytes → Bytes → Option Ordering) → Bytes → Bytes → Option Ordering
round next v1 v2 =
    if starts_with_tilde v1 && starts_with_tilde v2
    then next (tail v1) (tail v2)
    else if starts_with_tilde v1
    then some lt
    else if starts_with_tilde v2
    then some gt
    else if is_empty v1 || is_empty v2
    then some (compare_len v1 v2)
    else segments next v1 v2

-- The loop. `none` says that the fuel ran out.
unfoldable pub loop : ℕ → Bytes → Bytes → Option Ordering
loop zero v1 v2 = none
loop (suc fuel) v1 v2 =
    round (loop fuel) (drop_while isnt_alnum_or_tilde v1) (drop_while isnt_alnum_or_tilde v2)

unfoldable pub version_compare : Bytes → Bytes → Option Ordering
unfolding loop round segments or_else compare_segments seg_func is_numeric is_zero
    isnt_alnum_or_tilde take_while drop_while text_eq
version_compare v1 v2 = if text_eq v1 v2 then some eq else loop (length v1 + length v2 + 1) v1 v2

-- An empty epoch stands for 0.
unfoldable pub default_epoch : Bytes → Bytes
default_epoch [] = b'0' ∷ []
default_epoch (c ∷ s) = c ∷ s

unfoldable pub label_compare : Label → Label → Option Ordering
unfolding version_compare default_epoch
label_compare l1 l2 =
    or_else (version_compare (default_epoch l1.epoch) (default_epoch l2.epoch))
      (or_else (version_compare l1.version l2.version) (version_compare l1.release l2.release))

numbers_by_value : version_compare (codes "1.10") (codes "1.9") ≡ some gt
unfolding version_compare
numbers_by_value = refl
