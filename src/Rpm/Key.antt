-- ===== src/Rpm/Key.antt =====
-- What a version string stands for: the list of its segments. Versions are compared as such lists,
-- segment by segment.
use nvdtools.Prelude.{
  ℕ, zero, suc, ◌+◌, List, [], ◌∷◌, Bytes, ◌==◌, if◌then◌else◌, length, take_while, drop_while,
  Ordering, compare, compare_texts, compare_lists, then_by, IsOrder, compare-IsOrder,
  compare_lists-IsOrder, then_by-IsOrder,
}
use nvdtools.Rpm.Compare.{tilde, is_digit, is_letter, is_zero, isnt_alnum_or_tilde}

-- A tilde, the end of the text, a run of letters, or a run of digits without its leading zeros.
pub data Segment : Type 0 where
  tilde_mark : Segment
  end_mark : Segment
  word : Bytes → Segment
  number : Bytes → Segment

-- A tilde sorts before the end of the text, the end before a word, and a word before a number.
abbrev pub rank : Segment → ℕ
rank tilde_mark = 0
rank end_mark = 1
rank (word w) = 2
rank (number n) = 3

-- Numbers without leading zeros are ordered by their length first.
abbrev pub digits_of : Segment → ℕ
digits_of (number n) = length n
digits_of _ = 0

abbrev pub text_of : Segment → Bytes
text_of (word w) = w
text_of (number n) = n
text_of _ = []

abbrev pub compare_numbers : Segment → Segment → Ordering
compare_numbers a b =
    then_by (compare (digits_of a) (digits_of b)) (compare_texts (text_of a) (text_of b))

abbrev pub compare_segment : Segment → Segment → Ordering
compare_segment a b = then_by (compare (rank a) (rank b)) (compare_numbers a b)

-- The segments of a trimmed text. `next` reads what is left of it.
unfoldable pub read_segment : (Bytes → List Segment) → Bytes → List Segment
read_segment next [] = end_mark ∷ []
read_segment next (c ∷ s) =
    if c == tilde
    then tilde_mark ∷ next s
    else if is_digit c
    then number (drop_while is_zero (take_while is_digit (c ∷ s)))
      ∷ next (drop_while is_digit (c ∷ s))
    else word (take_while is_letter (c ∷ s)) ∷ next (drop_while is_letter (c ∷ s))

unfoldable pub read_segments : ℕ → Bytes → List Segment
read_segments zero v = []
read_segments (suc fuel) v = read_segment (read_segments fuel) (drop_while isnt_alnum_or_tilde v)

-- Each segment takes a byte at least, so the fuel is enough.
unfoldable pub version_key : Bytes → List Segment
unfolding read_segments read_segment is_digit is_letter is_zero isnt_alnum_or_tilde take_while
    drop_while
version_key v = read_segments (length v + 1) v

abbrev pub compare_keys : List Segment → List Segment → Ordering
compare_keys = compare_lists compare_segment

-- The comparison of keys is a total preorder.
pub compare_keys-IsOrder : IsOrder compare_keys
compare_keys-IsOrder = compare_lists-IsOrder (
    then_by-IsOrder rank (λ a. a) compare-IsOrder
      (then_by-IsOrder digits_of text_of compare-IsOrder (compare_lists-IsOrder compare-IsOrder)))
