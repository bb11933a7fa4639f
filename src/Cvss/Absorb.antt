-- ===== src/Cvss/Absorb.antt =====
-- `Absorb` of cvss2/vector.go and cvss3/vector.go, whatever the order in which it visits the metrics.
use nvdtools.Prelude.{
  ℕ, ◌≡◌, ◌≢◌, inl, inr, refl, sym, ap, ◌∙◌, List, [], ◌∷◌, Bytes, if◌then◌else◌, Bool-cases,
}
use nvdtools.Cvss.Metric.{MetricType, defined}
use nvdtools.Cvss.Parts.{update, absorb}
use nvdtools.Cvss.RoundTrip.{
  Laws, Among, Code-of, IsValid, overlay, overlay_keeps, defined_cases, defined-zero, defined-ne,
  update_self, update_other,
}

module _ {M : Type 0} {same : Discrete M} {name : M → Bytes} {kind : M → MetricType} {all : List M}
    (laws : Laws same name kind all) (other : M → ℕ) (valid : IsValid laws other) where
  absorb-overlay :
      (ms : List M) (values : M → ℕ)
      → absorb same name kind ms other values ≡ overlay laws ms other values
  unfolding absorb overlay
  absorb-overlay [] values = refl
  absorb-overlay (m ∷ ms) values = elim (defined_cases (other m)) [
    | inl z ↦ rw (defined-zero _ z) (absorb-overlay ms values)
    | inr n ↦
        let c = Code-of (kind m) (other m) (laws.kinds m) (valid m) n in
        rw (defined-ne _ n, c.written, c.read) (absorb-overlay ms (update same values m (other m)))
  ]

  overlay_undefined :
      (k : M) (ms : List M) (acc : M → ℕ) → other k ≡ 0 → overlay laws ms other acc k ≡ acc k
  unfolding overlay
  overlay_undefined k [] acc h = refl
  overlay_undefined k (m ∷ ms) acc h = elim (defined_cases (other m)) [
    | inl z ↦ rw (defined-zero _ z) (overlay_undefined k ms acc h)
    | inr n ↦ rw (defined-ne _ n) (
        overlay_undefined k ms (update same acc m (other m)) h
        ∙ update_other same acc m (other m) k (acc k) (λ e. n (ap other e ∙ h)) refl)
  ]

  overlay_defined :
      (k : M) (ms : List M) (acc : M → ℕ)
      → other k ≢ 0
      → Among k ms
      → overlay laws ms other acc k ≡ other k
  unfolding overlay
  overlay_defined k [] acc h a = absurd a
  overlay_defined k (m ∷ ms) acc h (inl e) = rw (defined-ne (other m) (λ z. h (ap other e ∙ z))) (
      overlay_keeps laws k ms other (update same acc m (other m))
        (update_self same acc m (other m) k (other k) (sym e) (ap other (sym e))))
  overlay_defined k (m ∷ ms) acc h (inr a) = elim (Bool-cases (defined (other m))) [
    | inl d ↦ rw d (overlay_defined k ms (update same acc m (other m)) h a)
    | inr d ↦ rw d (overlay_defined k ms acc h a)
  ]

  -- After `Absorb` a metric that the other vector defines has that vector's value, and every other
  -- metric has the value it had, in whatever order, and however often, the metrics are visited, as
  -- long as each one is.
  pub absorb_lem :
      (ms : List M) (values : M → ℕ) (k : M)
      → Among k ms
      → absorb same name kind ms other values k ≡ (if defined (other k) then other k else values k)
  absorb_lem ms values k a = elim (defined_cases (other k)) [
    | inl z ↦ rw (absorb-overlay ms values, defined-zero _ z) (overlay_undefined k ms values z)
    | inr n ↦ rw (absorb-overlay ms values, defined-ne _ n) (overlay_defined k ms values n a)
  ]
