-- ===== src/Rpm/Order.antt =====
-- rpm/compare.go: the loop always answers, and its answers are the order of the versions' keys.
use nvdtools.Prelude.{
  ◌+◌, ◌≡◌, refl, inl, inr, some, Bytes, Bool-cases, text_eq, text_eq_iff, length, arith, Ordering,
  eq, flip, Chain, IsOrder, then_by-IsOrder, then_by,
}
use nvdtools.Rpm.Compare.{Label, version_compare, label_compare, default_epoch}
use nvdtools.Rpm.Key.{version_key, compare_keys, compare_keys-IsOrder}
use nvdtools.Rpm.Rounds.{loop-read_segments, read_segments-fuel, or_else-some}

-- Comparing two version strings always ends with an answer, which is the comparison of their
-- lists of segments.
pub version_compare-keys :
    (v1 v2 : Bytes) → version_compare v1 v2 ≡ some (compare_keys (version_key v1) (version_key v2))
unfolding version_compare version_key
version_compare-keys v1 v2 = elim (Bool-cases (text_eq v1 v2)) [
  | inl h ↦ rw (h, (text_eq_iff v1 v2).0 h, compare_keys-IsOrder.same)
  | inr h ↦
      rw
        (
          h,
          read_segments-fuel (length v1 + 1) (length v1 + length v2 + 1) v1 (omega arith)
              (omega arith),
          read_segments-fuel (length v2 + 1) (length v1 + length v2 + 1) v2 (omega arith)
              (omega arith),
        )
        (loop-read_segments (length v1 + length v2 + 1) v1 v2 (omega arith) (omega arith))
]

-- The key of a label.
abbrev compare_labels : Label → Label → Ordering
compare_labels a b =
    then_by
      (compare_keys (version_key (default_epoch a.epoch)) (version_key (default_epoch b.epoch)))
      (then_by (compare_keys (version_key a.version) (version_key b.version))
        (compare_keys (version_key a.release) (version_key b.release)))

compare_labels-IsOrder : IsOrder compare_labels
compare_labels-IsOrder =
    then_by-IsOrder (λ (a : Label). version_key (default_epoch a.epoch)) (λ a. a)
      compare_keys-IsOrder
      (then_by-IsOrder (λ (a : Label). version_key a.version) (λ (a : Label). version_key a.release)
        compare_keys-IsOrder compare_keys-IsOrder)

label_compare_keys : (a b : Label) → label_compare a b ≡ some (compare_labels a b)
unfolding label_compare
label_compare_keys a b =
    rw (version_compare-keys, version_compare-keys, version_compare-keys)
      (or_else-some _ _ _ (or_else-some _ _ _ refl))

-- Comparing two labels gives an answer, and comparing them the other way round gives the opposite
-- one; a label compared to itself gives 0.
pub label_compare-flip :
    (a b : Label)
    → (r : Ordering) × (label_compare a b ≡ some r)
      × (label_compare b a ≡ some (flip r))
      × (label_compare a a ≡ some eq)
label_compare-flip a b = (
  compare_labels a b,
  label_compare_keys a b,
  rw (label_compare_keys b a, compare_labels-IsOrder.flips a b),
  rw (label_compare_keys a a, compare_labels-IsOrder.same a),
)

-- The order of labels is transitive: if `a` is older than `b` and `b` older than `c`, then `a` is
-- older than `c`; so too for newer, and where one of the comparisons says that the two are equal,
-- the other one decides.
pub label_compare_trans :
    (a b c : Label) (r s : Ordering)
    → label_compare a b ≡ some r
    → label_compare b c ≡ some s
    → (t : Ordering) × (label_compare a c ≡ some t) × Chain r s t
label_compare_trans a b c r s h k =
    let e : compare_labels a b ≡ r = cc (label_compare_keys a b) in
    let f : compare_labels b c ≡ s = cc (label_compare_keys b c) in
    (compare_labels a c, label_compare_keys a c, rw (e, f) at (compare_labels-IsOrder.chains a b c))
