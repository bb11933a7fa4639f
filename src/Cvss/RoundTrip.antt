-- ===== src/Cvss/RoundTrip.antt =====
-- The parts of a vector are read back as the values that they were written from.
use nvdtools.Prelude.{
  ℕ, zero, suc, ◌<◌, ◌≡◌, ◌≢◌, ◌⊎◌, inl, inr, refl, sym, ap, ◌∙◌, true, false, Option, none, some,
  fun_ext, List, [], ◌∷◌, ◌++◌, Bytes, if◌then◌else◌, text_eq_iff, split, split-join, All, Lacks,
  lacks_sound, to_upper, all_below_sound, Bool-cases, if_pos, if_neg, arith,
}
use nvdtools.Cvss.Metric.{
  MetricType, defined, to_string, parse, size, code_ok, codes_ok, code_reads_back, is_value,
}
use nvdtools.Cvss.Parts.{ok, write_parts, find_metric, read_parts, update, parse_pair}

-- What the code of a defined value is like.
pub record Code (t : MetricType) (v : ℕ) : Type 0 where
  pub text : Bytes
  pub written : to_string t v ≡ some text
  pub read : parse t text ≡ some v
  pub no_colon : Lacks b':' text
  pub no_slash : Lacks b'/' text
  pub is_upper : to_upper text ≡ text

is_value_eq : (o : Option ℕ) (v : ℕ) → is_value o v ≡ true → o ≡ some v
is_value_eq none v h = cc
is_value_eq (some w) v h = ground arith

Code-reads :
    (t : MetricType) (v : ℕ) (o : Option Bytes)
    → to_string t v ≡ o
    → code_reads_back t v o ≡ true
    → Code t v
Code-reads t v none e h = cc
Code-reads t v (some s) e h = record {
  text = s;
  written = e;
  read = is_value_eq (parse t s) v (ground arith);
  no_colon = lacks_sound b':' s (ground arith);
  no_slash = lacks_sound b'/' s (ground arith);
  is_upper = (text_eq_iff (to_upper s) s).0 (ground arith);
}

pub Code-of : (t : MetricType) (v : ℕ) → codes_ok t ≡ true → v < size t → v ≢ 0 → Code t v
unfolding codes_ok
Code-of t v h k n =
    let c : code_ok t v ≡ true = all_below_sound (size t) (code_ok t) v h k in
    Code-reads t v (to_string t v) refl (unfold code_ok in ground arith)

abbrev pub Among : {A : Type 0} → A → List A → Type 0
Among a [] = ⊥
Among a (x ∷ xs) = (a ≡ x) ⊎ Among a xs

-- What the tables of metrics of a package have to satisfy.
pub record Laws {M : Type 0} (same : Discrete M) (name : M → Bytes) (kind : M → MetricType)
    (all : List M) : Type 0 where
  pub lookup : (m : M) → find_metric same name kind all (name m) ≡ some m
  pub name_colon : (m : M) → Lacks b':' (name m)
  pub name_slash : (m : M) → Lacks b'/' (name m)
  pub kinds : (m : M) → codes_ok (kind m) ≡ true
  pub complete : (m : M) → Among m all

module _ {M : Type 0} (same : Discrete M) (acc : M → ℕ) (m : M) (v : ℕ) (k : M) (w : ℕ) where
  pub update_self : m ≡ k → v ≡ w → update same acc m v k ≡ w
  update_self e h = rw (if_pos _ e) h

  pub update_other : ¬ (m ≡ k) → acc k ≡ w → update same acc m v k ≡ w
  update_other n h = rw (if_neg _ n) h

  pub update_keeps : acc k ≡ w → (m ≡ k → v ≡ w) → update same acc m v k ≡ w
  update_keeps h f = elim (same m k) [ yes e ↦ update_self e (f e) | no n ↦ update_other n h ]

pub defined_cases : (v : ℕ) → (v ≡ 0) ⊎ (v ≢ 0)
defined_cases zero = inl refl
defined_cases (suc v) = inr (omega arith)

pub defined-zero : (v : ℕ) → v ≡ 0 → defined v ≡ false
unfolding defined
defined-zero v h = ground arith

pub defined-ne : (v : ℕ) → v ≢ 0 → defined v ≡ true
unfolding defined
defined-ne v h = ground arith

module _ {M : Type 0} {same : Discrete M} {name : M → Bytes} {kind : M → MetricType} {all : List M}
    (laws : Laws same name kind all) where
  -- Each value is one of its type.
  abbrev pub IsValid : (M → ℕ) → Type 0
  IsValid values = (m : M) → values m < size (kind m)

  -- The values `acc` with the defined ones of `values` written over it.
  unfoldable pub overlay : List M → (M → ℕ) → (M → ℕ) → M → ℕ
  overlay [] values acc = acc
  overlay (m ∷ ms) values acc =
      overlay ms values (if defined (values m) then update same acc m (values m) else acc)

  pub overlay_keeps :
      (k : M) (ms : List M) (values acc : M → ℕ)
      → acc k ≡ values k
      → overlay ms values acc k ≡ values k
  unfolding overlay
  overlay_keeps k [] values acc h = h
  overlay_keeps k (m ∷ ms) values acc h =
      overlay_keeps k ms values _ (elim (Bool-cases (defined (values m))) [
        | inl d ↦ rw d (update_keeps same acc m (values m) k (values k) h (λ e. ap values e))
        | inr d ↦ rw d h
      ])

  overlay_skip :
      (k m : M) (ms : List M) (values acc : M → ℕ)
      → overlay ms values (update same acc m (values m)) k ≡ values k
      → overlay ms values acc k ≡ values k
      → overlay (m ∷ ms) values acc k ≡ values k
  unfolding overlay
  overlay_skip k m ms values acc a b = elim (Bool-cases (defined (values m))) [
    | inl d ↦ rw d a
    | inr d ↦ rw d b
  ]

  overlay_here :
      (k m : M) (ms : List M) (values acc : M → ℕ)
      → acc k ≡ 0
      → m ≡ k
      → overlay (m ∷ ms) values acc k ≡ values k
  unfolding overlay
  overlay_here k m ms values acc h e = elim (defined_cases (values m)) [
    | inl z ↦ rw (defined-zero _ z) (overlay_keeps k ms values acc (h ∙ sym z ∙ ap values e))
    | inr n ↦ rw (defined-ne _ n) (
        overlay_keeps k ms values _
          (update_self same acc m (values m) k (values k) e (ap values e)))
  ]

  overlay_sets :
      (k : M) (ms : List M) (values acc : M → ℕ)
      → acc k ≡ 0
      → Among k ms
      → overlay ms values acc k ≡ values k
  overlay_sets k [] values acc h a = absurd a
  overlay_sets k (m ∷ ms) values acc h (inl e) = overlay_here k m ms values acc h (sym e)
  overlay_sets k (m ∷ ms) values acc h (inr a) = elim (same m k) [
    | yes e ↦ overlay_here k m ms values acc h e
    | no n ↦
        overlay_skip k m ms values acc
          (overlay_sets k ms values _ (update_other same acc m (values m) k 0 n h) a)
          (overlay_sets k ms values acc h a)
  ]

  -- One part is read as the value that it was written from.
  read_part :
      (m : M) (v : ℕ) (acc : M → ℕ) (c : Code (kind m) v)
      → parse_pair same name kind all acc (split b':' (name m ++ b':' ∷ c.text))
        ≡ ok (update same acc m v)
  read_part m v acc c = rw (
    split-join b':' (name m) (c.text ∷ []) (laws.name_colon m, (c.no_colon, tt)),
    laws.lookup m,
    c.read,
  )

  -- Writing gives parts, and reading them writes the values over those that were there.
  pub write_read :
      (ms : List M) (values : M → ℕ)
      → IsValid values
      → (parts : List Bytes) × (write_parts same name kind ms values ≡ some parts)
        × ((acc : M → ℕ) → read_parts same name kind all parts acc ≡ ok (overlay ms values acc))
  unfolding write_parts read_parts overlay
  write_read [] values h = ([], refl, λ acc. refl)
  write_read (m ∷ ms) values h =
      let (parts, w, r) = write_read ms values h in
      elim (defined_cases (values m)) [
        | inl z ↦ (parts, rw (defined-zero _ z) w, λ acc. rw (defined-zero _ z) (r acc))
        | inr n ↦
            let c = Code-of (kind m) (values m) (laws.kinds m) (h m) n in
            (
              (name m ++ b':' ∷ c.text) ∷ parts,
              rw (defined-ne _ n, c.written, w),
              λ acc. rw (defined-ne _ n, read_part m (values m) acc c) (r _),
            )
      ]

  -- What holds of each part that is written.
  pub write_parts-All :
      (P : Bytes → Type 0) (values : M → ℕ)
      → IsValid values
      → ((m : M) (c : Code (kind m) (values m)) → P (name m ++ b':' ∷ c.text))
      → (ms : List M) (parts : List Bytes) → write_parts same name kind ms values ≡ some parts
      → All P parts
  unfolding write_parts
  write_parts-All P values h f [] parts e = let q : parts ≡ [] = cc in rw q tt
  write_parts-All P values h f (m ∷ ms) parts e =
      let (rest, w, _) = write_read ms values h in
      let rec = write_parts-All P values h f ms rest w in
      elim (defined_cases (values m)) [
        | inl z ↦ let e' = rw (defined-zero _ z, w) at e in let q : parts ≡ rest = cc in rw q rec
        | inr n ↦
            let c = Code-of (kind m) (values m) (laws.kinds m) (h m) n in
            let e' = rw (defined-ne _ n, c.written, w) at e in
            let q : parts ≡ (name m ++ b':' ∷ c.text) ∷ rest = cc in rw q (f m c, rec)
      ]

  -- A defined metric gives a part.
  pub write_parts-ne-nil :
      (k : M) (values : M → ℕ)
      → IsValid values
      → values k ≢ 0
      → (ms : List M) → Among k ms
      → write_parts same name kind ms values ≢ some []
  unfolding write_parts
  write_parts-ne-nil k values h n [] a e = a
  write_parts-ne-nil k values h n (m ∷ ms) (inl i) e =
      let (rest, w, _) = write_read ms values h in
      let n' : values m ≢ 0 = rw i at n in
      let c = Code-of (kind m) (values m) (laws.kinds m) (h m) n' in
      cc (rw (defined-ne _ n', c.written, w) at e)
  write_parts-ne-nil k values h n (m ∷ ms) (inr a) e =
      let (rest, w, _) = write_read ms values h in
      let rec = write_parts-ne-nil k values h n ms a in
      elim (defined_cases (values m)) [
        | inl z ↦ rec (rw (defined-zero _ z) at e)
        | inr n' ↦
            let c = Code-of (kind m) (values m) (laws.kinds m) (h m) n' in
            cc (rw (defined-ne _ n', c.written, w) at e)
      ]

  -- All metrics together are read back over a vector with nothing defined.
  pub overlay_all : (values : M → ℕ) → overlay all values (λ _. 0) ≡ values
  overlay_all values = fun_ext (λ k. overlay_sets k all values (λ _. 0) refl (laws.complete k))
