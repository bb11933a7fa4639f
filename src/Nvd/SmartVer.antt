-- ===== src/Nvd/SmartVer.antt =====
-- cvefeed/nvd/smartvercmp.go: the comparison of version strings of any convention. Texts are ASCII.
use nvdtools.Prelude.{
  ℕ, zero, suc, ◌+◌, ◌-◌, Bool, not, ◌&&◌, ◌||◌, Option, none, some, [], ◌∷◌, ◌++◌, Bytes, codes,
  ◌==◌, leb, ltb, if◌then◌else◌, length, take_while, take, drop, replicate, index_func, Ordering,
  compare, compare_texts, lt, eq, gt, ◌≡◌, refl,
}

-- A byte of the source's loop `v[num] < '0' || v[num] > '9'`
unfoldable pub is_digit : ℕ → Bool
is_digit c = not (ltb c b'0' || ltb b'9' c)

-- The function that `IndexFunc` takes: punctuation is all of 33 to 126 but digits and letters.
unfoldable pub is_separator : ℕ → Bool
is_separator b =
    leb b'!' b
    && leb b b'~'
    && not (ltb b'/' b && ltb b b':' || ltb b'@' b && ltb b b'[' || ltb b'`' b && ltb b b'{')

-- The run of digits, the end of what is compared, and the start of the next part.
pub record Parts : Type 0 where
  pub num : ℕ
  pub cmp_to : ℕ
  pub skip : ℕ

abbrev pub parts_at : Option ℕ → ℕ → ℕ → Parts
parts_at none num len = record { num = num; cmp_to = len; skip = len }
parts_at (some i) num len = record { num = num; cmp_to = i; skip = i + 1 }

unfoldable pub parse_ver_parts : Bytes → Parts
unfolding is_digit is_separator take_while index_func
parse_ver_parts v =
    let num = length (take_while is_digit v) in
    if num == length v
    then record { num = num; cmp_to = num; skip = num }
    else parts_at (index_func is_separator v) num (length v)

unfoldable pub lpad : Bytes → ℕ → Bytes
unfolding replicate
lpad s n = replicate n b'0' ++ s

-- The part of `s`, padded if the number of the other text's part has more digits.
unfoldable pub padded : Bytes → ℕ → ℕ → ℕ → Bytes
unfolding lpad take
padded s cmp_to num other_num =
    if ltb num other_num then lpad (take cmp_to s) (other_num - num) else take cmp_to s

-- One round on two texts that are not empty: the comparison of their first parts.
unfoldable pub compare_parts : Bytes → Bytes → Ordering
unfolding padded parse_ver_parts
compare_parts s1 s2 =
    let p1 = parse_ver_parts s1 in
    let p2 = parse_ver_parts s2 in
    compare_texts (padded s1 p1.cmp_to p1.num p2.num) (padded s2 p2.cmp_to p2.num p1.num)

unfoldable pub next_part : Bytes → Bytes
unfolding parse_ver_parts drop
next_part s = drop (parse_ver_parts s).skip s

-- The result of a round that says `c`: `eq` goes on with the loop.
abbrev pub unless_equal : Ordering → Option Ordering → Option Ordering
unless_equal eq next = next
unless_equal lt next = some lt
unless_equal gt next = some gt

-- The loop. `some eq` says that it ended with no difference, `none` that the fuel ran out.
unfoldable pub loop : ℕ → Bytes → Bytes → Option Ordering
unfolding compare_parts next_part
loop fuel [] s2 = some eq
loop fuel (c ∷ s1) [] = some eq
loop zero (c ∷ s1) (d ∷ s2) = none
loop (suc fuel) (c ∷ s1) (d ∷ s2) =
    unless_equal (compare_parts (c ∷ s1) (d ∷ s2))
      (loop fuel (next_part (c ∷ s1)) (next_part (d ∷ s2)))

-- After a loop with no difference the longer text wins.
abbrev pub by_length : Option Ordering → Bytes → Bytes → Option Ordering
by_length none v1 v2 = none
by_length (some lt) v1 v2 = some lt
by_length (some gt) v1 v2 = some gt
by_length (some eq) v1 v2 = some (compare (length v1) (length v2))

unfoldable pub smart_ver_cmp : Bytes → Bytes → Option Ordering
unfolding loop
smart_ver_cmp v1 v2 = by_length (loop (length v1 + length v2) v1 v2) v1 v2

service_packs : smart_ver_cmp (codes "95SE") (codes "98SP1") ≡ some lt
unfolding smart_ver_cmp
service_packs = refl

dotted_numbers : smart_ver_cmp (codes "16.3.2") (codes "3.7.0") ≡ some gt
unfolding smart_ver_cmp
dotted_numbers = refl
