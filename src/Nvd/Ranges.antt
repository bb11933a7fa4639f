-- ===== src/Nvd/Ranges.antt =====
-- cvefeed/nvd/match_cpe.go: what a match with version ranges accepts.
use nvdtools.Prelude.{
  Bool, true, false, Option, some, [], ◌∷◌, Bytes, text_eq, ◌≡◌, ◌≢◌, ◌⊎◌, text_eq_iff, ◌↔◌, arith,
  Ordering, lt, eq, gt, Bool-cases, inl, inr, refl, flip,
}
use nvdtools.Wfn.Attributes.{Attributes, any}
use nvdtools.Wfn.Matching.{match_only_version, match_without_version}
use nvdtools.Wfn.Slashes.{strip_slashes}
use nvdtools.Nvd.SmartVer.{smart_ver_cmp}
use nvdtools.Nvd.SmartOrder.{smart_ver_cmp-flip}
use nvdtools.Nvd.MatchCpe.{
  CpeMatch, FeedMatch, cpe_matcher, match, match_version, match_ranges, in_ranges, bounded,
  at_least, at_most, above, below, answer,
}

-- Requiring a version only ever takes matches away.
pub match-require_version :
    (cm : CpeMatch) (attr : Attributes) → match cm attr true ≡ true → match cm attr false ≡ true
unfolding match match_version
match-require_version cm attr h = ground arith

-- The comparison of versions says that `v` is the older one.
abbrev pub Older : Bytes → Bytes → Type 0
Older v w = smart_ver_cmp v w ≡ some lt

-- The version lies within the bounds that are given.
pub record InRange (m : FeedMatch) (ver : Bytes) : Type 0 where
  pub start_including : m.version_start_including ≢ [] → ¬ Older ver m.version_start_including
  pub start_excluding : m.version_start_excluding ≢ [] → Older m.version_start_excluding ver
  pub end_including : m.version_end_including ≢ [] → ¬ Older m.version_end_including ver
  pub end_excluding : m.version_end_excluding ≢ [] → Older ver m.version_end_excluding

-- What each test says of the comparison `m` and of `k`, the comparison the other way round.
record Reads (m k : Option Ordering) : Type 0 where
  not_older : (at_least (answer m) ≡ true) ↔ ¬ (m ≡ some lt)
  newer : (above (answer m) ≡ true) ↔ (k ≡ some lt)
  not_newer : (at_most (answer m) ≡ true) ↔ ¬ (k ≡ some lt)
  is_older : (below (answer m) ≡ true) ↔ (m ≡ some lt)

Reads-answer : (r : Ordering) (m k : Option Ordering) → m ≡ some r → k ≡ some (flip r) → Reads m k
Reads-answer lt m k h h' =
    rw (h, h')
      (record {
        not_older = ground arith;
        newer = ground arith;
        not_newer = ground arith;
        is_older = ground arith;
      })
Reads-answer eq m k h h' =
    rw (h, h')
      (record {
        not_older = ground arith;
        newer = ground arith;
        not_newer = ground arith;
        is_older = ground arith;
      })
Reads-answer gt m k h h' =
    rw (h, h')
      (record {
        not_older = ground arith;
        newer = ground arith;
        not_newer = ground arith;
        is_older = ground arith;
      })

Reads-versions : (v w : Bytes) → Reads (smart_ver_cmp v w) (smart_ver_cmp w v)
Reads-versions v w = let (r, h, k) = smart_ver_cmp-flip v w in Reads-answer r _ _ h k

-- A bound that is given is tested, and one that is empty is not.
bounded_iff :
    (test : Ordering → Bool) (P : Type 0) (ver bound : Bytes)
    → ((test (answer (smart_ver_cmp ver bound)) ≡ true) ↔ P)
    → (bounded test ver bound ≡ true) ↔ (bound ≢ [] → P)
unfolding bounded
bounded_iff test P ver [] h = (λ _ n. absurd (n refl), λ _. refl)
bounded_iff test P ver (c ∷ b) h = (λ t n. h.0 t, λ f. h.1 (f (cc)))

-- The ranges of a match accept a version exactly if it lies within the bounds that the feed gives:
-- from the start on, or behind it where the start is excluded, and up to the end, or before it.
pub in_ranges_iff :
    (a : Attributes) (m : FeedMatch) (ver : Bytes)
    → (in_ranges (cpe_matcher a m) ver ≡ true) ↔ InRange m ver
unfolding in_ranges cpe_matcher
in_ranges_iff a m ver =
    let si = m.version_start_including in
    let se = m.version_start_excluding in
    let ei = m.version_end_including in
    let ee = m.version_end_excluding in
    let p = bounded_iff at_least (¬ Older ver si) ver si (Reads-versions ver si).not_older in
    let q = bounded_iff above (Older se ver) ver se (Reads-versions ver se).newer in
    let s = bounded_iff at_most (¬ Older ei ver) ver ei (Reads-versions ver ei).not_newer in
    let t = bounded_iff below (Older ver ee) ver ee (Reads-versions ver ee).is_older in
    (
      λ h. record {
        start_including = p.0 (ground arith);
        start_excluding = q.0 (ground arith);
        end_including = s.0 (ground arith);
        end_excluding = t.0 (ground arith);
      },
      λ r.
          rw (
            p.1 r.start_including,
            q.1 r.start_excluding,
            s.1 r.end_including,
            t.1 r.end_excluding,
          ),
    )

-- The four ways in which a match accepts a name.
pub data Accepts (cm : CpeMatch) (attr : Attributes) (require_version : Bool) : Type 0 where
  -- The name has no version and no ranges, and none is required.
  unversioned :
      cm.attributes.version ≡ any
      → cm.has_version_ranges ≡ false
      → require_version ≡ false
      → Accepts cm attr require_version
  -- The version of the name matches.
  by_version :
      cm.attributes.version ≢ any
      → match_only_version cm.attributes attr ≡ true
      → Accepts cm attr require_version
  -- The attributes asked about leave the version open.
  any_version :
      (cm.attributes.version ≢ any) ⊎ (cm.has_version_ranges ≡ true)
      → attr.version ≡ any
      → Accepts cm attr require_version
  -- The version lies in the ranges.
  by_ranges :
      cm.has_version_ranges ≡ true
      → in_ranges cm (strip_slashes attr.version) ≡ true
      → Accepts cm attr require_version

text_eq-ne : (s t : Bytes) → text_eq s t ≡ false → s ≢ t
text_eq-ne s t h e = cc ((text_eq_iff s t).1 e)

ne-text_eq : (s t : Bytes) → s ≢ t → text_eq s t ≡ false
ne-text_eq s t h = elim (Bool-cases (text_eq s t)) [
  | inl e ↦ absurd (h ((text_eq_iff s t).0 e))
  | inr e ↦ e
]

version_sound :
    (cm : CpeMatch) (attr : Attributes) (v : Bool)
    → match_version cm attr v ≡ true
    → Accepts cm attr v
unfolding match_version match_ranges
version_sound cm attr v h = elim (Bool-cases (text_eq cm.attributes.version any)) [
  | inl t1 ↦ elim (Bool-cases cm.has_version_ranges) [
    | inl r ↦ elim (Bool-cases (text_eq attr.version any)) [
      | inl t2 ↦ any_version (inr r) ((text_eq_iff _ _).0 t2)
      | inr t2 ↦ by_ranges r (ground arith)
    ]
    | inr r ↦ unversioned ((text_eq_iff _ _).0 t1) r (ground arith)
  ]
  | inr t1 ↦ elim (Bool-cases (match_only_version cm.attributes attr)) [
    | inl o ↦ by_version (text_eq-ne _ _ t1) o
    | inr o ↦ elim (Bool-cases (text_eq attr.version any)) [
      | inl t2 ↦ any_version (inl (text_eq-ne _ _ t1)) ((text_eq_iff _ _).0 t2)
      | inr t2 ↦ by_ranges (ground arith) (ground arith)
    ]
  ]
]

match_complete :
    (cm : CpeMatch) (attr : Attributes) (v : Bool)
    → match_without_version cm.attributes attr ≡ true
    → Accepts cm attr v
    → match cm attr v ≡ true
unfolding match match_version match_ranges
match_complete cm attr v h (unversioned e r q) = rw (h, (text_eq_iff _ _).1 e, r, q)
match_complete cm attr v h (by_version e o) =
    let f = ne-text_eq cm.attributes.version any e in ground arith
match_complete cm attr v h (any_version (inl e) a) =
    let f = ne-text_eq cm.attributes.version any e in
    let g = (text_eq_iff attr.version any).1 a in ground arith
match_complete cm attr v h (any_version (inr r) a) =
    let g = (text_eq_iff attr.version any).1 a in ground arith
match_complete cm attr v h (by_ranges r i) = ground arith

-- A match accepts the attributes exactly if all but the version match and one of these holds: the
-- match has neither version nor ranges and none is required; its version matches; the attributes
-- leave the version open and the match has a version or ranges; the version lies in the ranges.
pub match_iff :
    (cm : CpeMatch) (attr : Attributes) (v : Bool)
    → (match cm attr v ≡ true)
      ↔ ((match_without_version cm.attributes attr ≡ true) × Accepts cm attr v)
match_iff cm attr v = (
  λ h. (unfold match in ground arith, version_sound cm attr v (unfold match in ground arith)),
  λ (h, a). match_complete cm attr v h a,
)
