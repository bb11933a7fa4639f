-- ===== src/Wfn/Decides.antt =====
-- `matchStr` finds a match exactly where there is one, whatever its search order.
use nvdtools.Prelude.{
  ℕ, Bool, true, false, [], ◌∷◌, Bytes, ◌==◌, ◌≡◌, ◌⊎◌, ◌↔◌, inl, inr, refl, arith, Bool-cases,
}
use nvdtools.Wfn.Relation.{Relation, disjoint, equal, superset}
use nvdtools.Wfn.Wildcard.{is_wildcard}
use nvdtools.Wfn.Strings.{try_suffixes, only_stars, after_star, next_escape, match_from, match_str}
use nvdtools.Wfn.Pattern.{Matches, done, leave, take, one, same, EndsPlain}

-- The relation is not `Disjoint`.
abbrev pub found : Relation → Bool
found disjoint = false
found _ = true

-- Escaped texts are not at their end.
abbrev Open : Bool → Bytes → Type 0
Open true [] = ⊥
Open _ _ = Unit

EndsPlain-tail : (d : ℕ) (t : Bytes) → EndsPlain (d ∷ t) → EndsPlain t
EndsPlain-tail d [] h = tt
EndsPlain-tail d (c ∷ t) h = h

-- After a byte that stands for itself the state is open only before the end of the text.
Open-next : (e : Bool) (c d : ℕ) (t : Bytes) → c ≡ d → EndsPlain (d ∷ t) → Open (next_escape e c) t
Open-next e c d [] h p = ground arith
Open-next true c d (x ∷ t) h p = ground arith
Open-next false c d (x ∷ t) h p = ground arith

Open-false : (t : Bytes) → Open false t
Open-false [] = tt
Open-false (c ∷ t) = tt

found-try_suffixes :
    (rest : Bytes → Relation) (d : ℕ) (t : Bytes)
    → (found (try_suffixes rest (d ∷ t)) ≡ true)
      ↔ ((found (rest (d ∷ t)) ≡ true) ⊎ (found (try_suffixes rest t) ≡ true))
unfolding try_suffixes
found-try_suffixes rest d t = ground arith

Matches-only_stars : (s : Bytes) → only_stars s ≡ true → Matches false s []
unfolding only_stars
Matches-only_stars [] h = done
Matches-only_stars (c ∷ s) h = leave refl (ground arith) (Matches-only_stars s (ground arith))

only_stars-Matches : {s : Bytes} → Matches false s [] → only_stars s ≡ true
unfolding only_stars
only_stars-Matches done = refl
only_stars-Matches (leave e c m) = ground (arith, only_stars-Matches m)

first_star : {x : ℕ} {r : Bytes} → Matches false (x ∷ r) [] → (x ≡ b'*') × Matches false r []
first_star (leave e h m) = (h, m)

-- A source of asterisks matches any text.
star_any : (x : ℕ) (r t : Bytes) → x ≡ b'*' → Matches false r [] → Matches false (x ∷ r) t
star_any x r [] e m = leave refl e m
star_any x r (d ∷ t) e m = take refl e (star_any x r t e m)

star_inv :
    {c d : ℕ} {s t : Bytes}
    → c ≡ b'*'
    → Matches false (c ∷ s) (d ∷ t)
    → Matches false s (d ∷ t) ⊎ Matches false (c ∷ s) t
star_inv h (leave e k m) = inl m
star_inv h (take e k m) = inr m
star_inv h (one e k m) = absurd (omega arith)
star_inv h (same (inl e) k m) = cc
star_inv h (same (inr e) k m) = absurd (ground arith)

one_inv : {c d : ℕ} {s t : Bytes} → c ≡ b'?' → Matches false (c ∷ s) (d ∷ t) → Matches false s t
one_inv h (leave e k m) = absurd (omega arith)
one_inv h (take e k m) = absurd (omega arith)
one_inv h (one e k m) = m
one_inv h (same (inl e) k m) = cc
one_inv h (same (inr e) k m) = absurd (ground arith)

same_inv :
    {e : Bool} {c d : ℕ} {s t : Bytes}
    → (e ≡ true) ⊎ (is_wildcard c ≡ false)
    → Matches e (c ∷ s) (d ∷ t)
    → (c ≡ d) × Matches (next_escape e c) s t
same_inv h (leave e k m) = absurd (ground arith)
same_inv h (take e k m) = absurd (ground arith)
same_inv h (one e k m) = absurd (ground arith)
same_inv h (same w k m) = (k, m)

-- A source that matches a suffix of the text matches the text behind an asterisk.
module _ (c : ℕ) (s : Bytes) (is_star : c ≡ b'*') (x : ℕ) (r : Bytes) (more : s ≡ x ∷ r)
    (sound : (t : Bytes)
      → EndsPlain t
      → found (match_from s t false equal) ≡ true
      → Matches false s t)
    (complete : (t : Bytes)
      → EndsPlain t
      → Matches false s t
      → found (match_from s t false equal) ≡ true) where
  abbrev rest : Bytes → Relation
  rest u = match_from s u false equal

  star_sound :
      (t : Bytes) → EndsPlain t → found (try_suffixes rest t) ≡ true → Matches false (c ∷ s) t
  star_sound [] p h = unfold try_suffixes in cc
  star_sound (d ∷ t) p h = elim ((found-try_suffixes rest d t).0 h) [
    | inl now ↦ leave refl is_star (sound (d ∷ t) p now)
    | inr later ↦ take refl is_star (star_sound t (EndsPlain-tail d t p) later)
  ]

  star_complete :
      (d : ℕ) (t : Bytes)
      → EndsPlain (d ∷ t)
      → Matches false (c ∷ s) (d ∷ t)
      → found (try_suffixes rest (d ∷ t)) ≡ true
  star_complete d [] p m = elim (star_inv is_star m) [
    | inl now ↦ (found-try_suffixes rest d []).1 (inl (complete (d ∷ []) p now))
    | inr later ↦
        let stars : Matches false (x ∷ r) [] = rw more at (first_star later).1 in
        let all : Matches false s (d ∷ []) =
          rw more (star_any x r (d ∷ []) (first_star stars).0 (first_star stars).1) in
        (found-try_suffixes rest d []).1 (inl (complete (d ∷ []) p all))
  ]
  star_complete d (y ∷ t) p m = elim (star_inv is_star m) [
    | inl now ↦ (found-try_suffixes rest d (y ∷ t)).1 (inl (complete (d ∷ y ∷ t) p now))
    | inr later ↦ (found-try_suffixes rest d (y ∷ t)).1 (inr (star_complete y t p later))
  ]

-- The answer on `s` and `t`, and what it says.
abbrev Right : Bytes → Bytes → Bool → Relation → Type 0
Right s t e r = (found (match_from s t e r) ≡ true) ↔ Matches e s t

-- A byte that is no open wildcard has to be the byte of the text.
literal_Right :
    (c d : ℕ) (s t : Bytes) (e : Bool) (r : Relation)
    → (e ≡ true) ⊎ (is_wildcard c ≡ false)
    → (c ≡ d → Right s t (next_escape e c) r)
    → Right (c ∷ s) (d ∷ t) e r
unfolding match_from
literal_Right c d s t e r w ih = elim (Bool-cases (c == d)) [
  | inl h ↦
      let k : c ≡ d = ground arith in
      (
        λ f. same w k ((ih k).0 (ground arith)),
        λ m. let g = (ih k).1 (same_inv w m).1 in ground arith,
      )
  | inr h ↦ (λ f. absurd (ground arith), λ m. let k = (same_inv w m).0 in absurd (ground arith))
]

star_Right :
    (c d : ℕ) (s t : Bytes) (r : Relation)
    → c ≡ b'*'
    → EndsPlain (d ∷ t)
    → ((u : Bytes) → EndsPlain u → Right s u false equal)
    → Right (c ∷ s) (d ∷ t) false r
unfolding match_from after_star
star_Right c d [] t r h p ih = (λ f. star_any c [] (d ∷ t) h done, λ m. rw h)
star_Right c d (x ∷ s) t r h p ih = rw h (
  star_sound b'*' (x ∷ s) refl x s refl (λ u q. (ih u q).0) (λ u q. (ih u q).1) (d ∷ t) p,
  star_complete b'*' (x ∷ s) refl x s refl (λ u q. (ih u q).0) (λ u q. (ih u q).1) d t p,
)

question_Right :
    (c d : ℕ) (s t : Bytes) (r : Relation)
    → c ≡ b'?'
    → Right s t false superset
    → Right (c ∷ s) (d ∷ t) false r
unfolding match_from
question_Right c d s t r h ih = rw h (λ f. one refl refl (ih.0 f), λ m. ih.1 (one_inv refl m))

match_from-Right :
    (s t : Bytes) (e : Bool) (r : Relation)
    → found r ≡ true
    → Open e t
    → EndsPlain t
    → Right s t e r
match_from-Right [] [] e r f o p = unfold match_from in (λ _. done, λ _. f)
match_from-Right [] (d ∷ t) e r f o p = unfold match_from in (λ h. cc, λ m. elim m [ ])
match_from-Right (c ∷ s) [] true r f o p = absurd o
match_from-Right (c ∷ s) [] false r f o p =
    unfold match_from in
    (λ h. Matches-only_stars (c ∷ s) (ground arith), λ m. rw (only_stars-Matches m))
match_from-Right (c ∷ s) (d ∷ t) true r f o p = literal_Right c d s t true r (inl refl) λ h.
    match_from-Right s t (next_escape true c) r f (Open-next true c d t h p) (EndsPlain-tail d t p)
match_from-Right (c ∷ s) (d ∷ t) false r f o p =
    let any =
      λ (u : Bytes) (q : EndsPlain u). match_from-Right s u false equal refl (Open-false u) q in
    let next = match_from-Right s t false superset refl (Open-false t) (EndsPlain-tail d t p) in
    let literal = λ (h : c ≡ d).
      match_from-Right s t (next_escape false c) r f (Open-next false c d t h p)
        (EndsPlain-tail d t p) in
    elim (Bool-cases (c == b'*')) [
      | inl star ↦ star_Right c d s t r (ground arith) p any
      | inr h ↦ elim (Bool-cases (c == b'?')) [
        | inl question ↦ question_Right c d s t r (ground arith) next
        | inr k ↦ literal_Right c d s t false r (inr (ground arith)) literal
      ]
    ]

-- `matchStr` answers something other than `Disjoint` exactly if the source matches the text, for
-- every text that does not end in a backslash.
pub match_str_iff : (s t : Bytes) → EndsPlain t → (found (match_str s t) ≡ true) ↔ Matches false s t
unfolding match_str
match_str_iff s t p = match_from-Right s t false equal refl (Open-false t) p
