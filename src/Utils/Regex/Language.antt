-- ===== src/Utils/Regex/Language.antt =====
-- The texts that a regular expression describes, and the matcher of internal/utils/validation.go.
use an.Prelude.{
  ℕ, ◌≡◌, refl, sym, ap, ◌∙◌, subst, ◌↔◌, ◌⊎◌, inl, inr, Bool, true, false, ◌&&◌, ◌||◌, List, [],
  ◌∷◌, ◌++◌, arith, if◌then◌else◌,
}
use an.Utils.Regex.{Regex, nothing, empty, class, seq, alt, star, nullable, deriv, match_codes}

-- A text of any number of parts from a set of texts
pub data Parts (l : List ℕ → Type 0) : List ℕ → Type 0 where
  no_parts : {w : List ℕ} → w ≡ [] → Parts l w
  part : {w : List ℕ} (c : ℕ) (u v : List ℕ) → w ≡ c ∷ (u ++ v) → l (c ∷ u) → Parts l v → Parts l w

-- The texts of an expression, independent of the matcher
unfoldable pub Language : Regex → List ℕ → Type 0
Language nothing w = ⊥
Language empty w = w ≡ []
Language (class p) w = (c : ℕ) × (w ≡ c ∷ []) × (p c ≡ true)
Language (seq r s) w = (u v : List ℕ) × (w ≡ u ++ v) × Language r u × Language s v
Language (alt r s) w = Language r w ⊎ Language s w
Language (star r) w = Parts (Language r) w

head_or : ℕ → List ℕ → ℕ
head_or c [] = c
head_or c (d ∷ w) = d

tail : List ℕ → List ℕ
tail [] = []
tail (d ∷ w) = w

module _ {c d : ℕ} {w u : List ℕ} (e : c ∷ w ≡ d ∷ u) where
  pub heads : c ≡ d
  unfolding head_or
  heads = ap (head_or c) e

  pub tails : w ≡ u
  unfolding tail
  tails = ap tail e

both : (a b : Bool) → (a && b) ≡ true → (a ≡ true) × (b ≡ true)
both a b h = ground arith

either : (a b : Bool) → (a || b) ≡ true → (a ≡ true) ⊎ (b ≡ true)
either a b h = ground arith

nullable-Language : (r : Regex) → nullable r ≡ true → Language r []
unfolding nullable Language
nullable-Language nothing h = cc
nullable-Language empty h = refl
nullable-Language (class p) h = cc
nullable-Language (seq r s) h =
    let (a, b) = both (nullable r) (nullable s) h in
    ([], [], refl, nullable-Language r a, nullable-Language s b)
nullable-Language (alt r s) h = elim (either (nullable r) (nullable s) h) [
  | inl a ↦ inl (nullable-Language r a)
  | inr b ↦ inr (nullable-Language s b)
]
nullable-Language (star r) h = no_parts refl

left_nil : (u v : List ℕ) → [] ≡ u ++ v → (u ≡ []) × (v ≡ [])
left_nil [] v e = (refl, sym e)
left_nil (c ∷ u) v e = cc

Language-nullable : (r : Regex) → Language r [] → nullable r ≡ true
unfolding nullable Language
Language-nullable nothing h = elim h [ ]
Language-nullable empty h = refl
Language-nullable (class p) (c, e, h) = cc
Language-nullable (seq r s) (u, v, e, a, b) =
    let (u_nil, v_nil) = left_nil u v e in
    let first = Language-nullable r (subst (Language r) u_nil a) in
    let second = Language-nullable s (subst (Language s) v_nil b) in ground arith
Language-nullable (alt r s) (inl a) = let first = Language-nullable r a in ground arith
Language-nullable (alt r s) (inr b) = let second = Language-nullable s b in ground arith
Language-nullable (star r) h = refl

module _ (c : ℕ) (r s : Regex) where
  -- The derivative of a sequence, by whether its first part may be empty
  abbrev deriv_seq : Bool → Regex
  deriv_seq b = if b then alt (seq (deriv c r) s) (deriv c s) else seq (deriv c r) s

  module _ (w : List ℕ) (from_r : (u : List ℕ) → Language (deriv c r) u → Language r (c ∷ u))
      (from_s : Language (deriv c s) w → Language s (c ∷ w)) where
    longer : Language (seq (deriv c r) s) w → Language (seq r s) (c ∷ w)
    unfolding Language
    longer (u, v, e, a, b) = (c ∷ u, v, ap (λ x. c ∷ x) e, from_r u a, b)

    from_seq : (b : Bool) → nullable r ≡ b → Language (deriv_seq b) w → Language (seq r s) (c ∷ w)
    unfolding Language
    from_seq true e (inl h) = longer h
    from_seq true e (inr h) = ([], c ∷ w, refl, nullable-Language r e, from_s h)
    from_seq false e h = longer h

  module _ (w : List ℕ) (to_r : (u : List ℕ) → Language r (c ∷ u) → Language (deriv c r) u)
      (to_s : Language s (c ∷ w) → Language (deriv c s) w) where
    to_seq :
        (b : Bool) (u v : List ℕ)
        → nullable r ≡ b
        → c ∷ w ≡ u ++ v
        → Language r u
        → Language s v
        → Language (deriv_seq b) w
    unfolding Language
    to_seq true [] v n e h k = inr (to_s (subst (Language s) (sym e) k))
    to_seq false [] v n e h k = let m = Language-nullable r h in cc
    to_seq true (d ∷ u) v n e h k =
        inl (u, v, tails e, to_r u (subst (λ x. Language r (x ∷ u)) (sym (heads e)) h), k)
    to_seq false (d ∷ u) v n e h k =
        (u, v, tails e, to_r u (subst (λ x. Language r (x ∷ u)) (sym (heads e)) h), k)

module _ (c : ℕ) where
  class_from :
      (p : ℕ → Bool) (w : List ℕ) (b : Bool)
      → p c ≡ b
      → Language (if b then empty else nothing) w
      → Language (class p) (c ∷ w)
  unfolding Language
  class_from p w true e h = (c, ap (λ x. c ∷ x) h, e)
  class_from p w false e h = elim h [ ]

  class_to :
      (p : ℕ → Bool) (w : List ℕ) (b : Bool)
      → p c ≡ b
      → p c ≡ true
      → w ≡ []
      → Language (if b then empty else nothing) w
  unfolding Language
  class_to p w true e h k = k
  class_to p w false e h k = cc

  deriv-Language : (r : Regex) (w : List ℕ) → Language (deriv c r) w → Language r (c ∷ w)
  unfolding deriv Language
  deriv-Language nothing w h = elim h [ ]
  deriv-Language empty w h = elim h [ ]
  deriv-Language (class p) w h = class_from p w (p c) refl h
  deriv-Language (seq r s) w h =
      from_seq c r s w (deriv-Language r) (deriv-Language s w) (nullable r) refl h
  deriv-Language (alt r s) w (inl h) = inl (deriv-Language r w h)
  deriv-Language (alt r s) w (inr h) = inr (deriv-Language s w h)
  deriv-Language (star r) w (u, v, e, a, b) =
      part c u v (ap (λ x. c ∷ x) e) (deriv-Language r u a) b

  Language-deriv : (r : Regex) (w : List ℕ) → Language r (c ∷ w) → Language (deriv c r) w
  unfolding deriv Language
  Language-deriv nothing w h = h
  Language-deriv empty w h = cc
  Language-deriv (class p) w (d, e, h) = class_to p w (p c) refl (ap p (heads e) ∙ h) (tails e)
  Language-deriv (seq r s) w (u, v, e, a, b) =
      to_seq c r s w (Language-deriv r) (Language-deriv s w) (nullable r) u v refl e a b
  Language-deriv (alt r s) w (inl h) = inl (Language-deriv r w h)
  Language-deriv (alt r s) w (inr h) = inr (Language-deriv s w h)
  Language-deriv (star r) w (no_parts e) = cc
  Language-deriv (star r) w (part d u v e a b) =
      (u, v, tails e, Language-deriv r u (subst (λ x. Language r (x ∷ u)) (sym (heads e)) a), b)

-- The matcher accepts exactly the texts that the expression describes.
pub match_codes_lem : (r : Regex) (w : List ℕ) → (match_codes r w ≡ true) ↔ Language r w
unfolding match_codes
match_codes_lem r [] = (nullable-Language r, Language-nullable r)
match_codes_lem r (c ∷ w) =
    let (sound, complete) = match_codes_lem (deriv c r) w in
    (λ h. deriv-Language c r w (sound h), λ h. complete (Language-deriv c r w h))
