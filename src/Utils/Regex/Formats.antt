-- ===== src/Utils/Regex/Formats.antt =====
-- What the patterns of internal/utils/validation.go let through, in terms of characters.
use an.Prelude.{
  ℕ, zero, suc, ◌≤◌, ◌≡◌, refl, sym, ap, ◌∙◌, subst, ◌↔◌, ◌⊎◌, inl, inr, String, len, Bool, true,
  ◌||◌, none, List, [], ◌∷◌, ◌++◌, arith, length,
}
use an.Utils.Regex.{
  class, plus, up_to, codes, is_lower, is_letter, is_digit, is_local, is_domain, is_key, key_regex,
  email_regex,
}
use an.Utils.Regex.Language.{heads, tails, Language, Parts, no_parts, part, match_codes_lem}
use an.Utils.Validation.{validate_key, validate_email}

abbrev pub Each : (ℕ → Type 0) → List ℕ → Type 0
Each p [] = Unit
Each p (c ∷ cs) = p c × Each p cs

abbrev pub Lower : ℕ → Type 0
Lower c = (b'a' ≤ c) × (c ≤ b'z')

abbrev pub Digit : ℕ → Type 0
Digit c = (b'0' ≤ c) × (c ≤ b'9')

abbrev pub Letter : ℕ → Type 0
Letter c = Lower c ⊎ ((b'A' ≤ c) × (c ≤ b'Z'))

-- A letter, a digit, or one of the other characters
abbrev pub Among : List ℕ → ℕ → Type 0
Among [] c = Letter c ⊎ Digit c
Among (d ∷ ds) c = (c ≡ d) ⊎ Among ds c

abbrev pub KeyStart : ℕ → Type 0
KeyStart c = Lower c ⊎ Digit c

abbrev pub KeyRest : ℕ → Type 0
KeyRest c = KeyStart c ⊎ ((c ≡ b'_') ⊎ (c ≡ b'-'))

-- From 1 to 64 characters
abbrev pub KeyText : List ℕ → Type 0
KeyText w = (c : ℕ) × (cs : List ℕ) × (w ≡ c ∷ cs) × KeyStart c × Each KeyRest cs × (length cs ≤ 63)

is_key_lem : (c : ℕ) → (is_key c ≡ true) ↔ KeyRest c
unfolding is_key is_lower is_digit
is_key_lem c = (λ h. ground arith, λ h. ground arith)

is_start_lem : (c : ℕ) → ((is_lower c || is_digit c) ≡ true) ↔ KeyStart c
unfolding is_lower is_digit
is_start_lem c = (λ h. ground arith, λ h. ground arith)

abbrev others : List ℕ
others = b'.' ∷ b'_' ∷ b'%' ∷ b'+' ∷ b'-' ∷ []

is_local_lem : (c : ℕ) → (is_local c ≡ true) ↔ Among others c
unfolding is_local is_letter is_lower is_digit
is_local_lem c = (λ h. ground arith, λ h. ground arith)

is_domain_lem : (c : ℕ) → (is_domain c ≡ true) ↔ Among (b'.' ∷ b'-' ∷ []) c
unfolding is_domain is_letter is_lower is_digit
is_domain_lem c = (λ h. ground arith, λ h. ground arith)

is_letter_lem : (c : ℕ) → (is_letter c ≡ true) ↔ Letter c
unfolding is_letter is_lower
is_letter_lem c = (λ h. ground arith, λ h. ground arith)

module _ (p : ℕ → Bool) (P : ℕ → Type 0) (same : (c : ℕ) → (p c ≡ true) ↔ P c) where
  up_to-Each : (n : ℕ) (w : List ℕ) → Language (up_to n (class p)) w → Each P w × (length w ≤ n)
  unfolding up_to Language
  up_to-Each zero w h = subst (λ w. Each P w × (length w ≤ zero)) (sym h) (tt, omega arith)
  up_to-Each (suc n) w (inl h) =
      subst (λ w. Each P w × (length w ≤ suc n)) (sym h) (tt, omega arith)
  up_to-Each (suc n) w (inr (u, v, e, (c, e', k), rest)) =
      let (each, short) = up_to-Each n v rest in
      subst (λ w. Each P w × (length w ≤ suc n)) (sym (e ∙ ap (λ x. x ++ v) e'))
        (((same c).0 k, each), omega arith)

  Each-up_to : (n : ℕ) (w : List ℕ) → Each P w → length w ≤ n → Language (up_to n (class p)) w
  unfolding up_to Language
  Each-up_to zero [] each short = refl
  Each-up_to zero (c ∷ w) each short = absurd (omega arith)
  Each-up_to (suc n) [] each short = inl refl
  Each-up_to (suc n) (c ∷ w) each short =
      inr (c ∷ [], w, refl, (c, refl, (same c).1 each.0), Each-up_to n w each.1 (omega arith))

  star-Each : (w : List ℕ) → Parts (Language (class p)) w → Each P w
  unfolding Language
  star-Each w (no_parts e) = subst (Each P) (sym e) tt
  star-Each w (part c u v e (d, e', k) rest) =
      subst (Each P) (sym (e ∙ ap (λ x. c ∷ (x ++ v)) (tails e')))
        ((same c).0 (ap p (heads e') ∙ k), star-Each v rest)

  Each-star : (w : List ℕ) → Each P w → Parts (Language (class p)) w
  unfolding Language
  Each-star [] each = no_parts refl
  Each-star (c ∷ w) each = part c [] w refl (c, refl, (same c).1 each.0) (Each-star w each.1)

  plus-Each : (w : List ℕ) → Language (plus (class p)) w → Each P w × (1 ≤ length w)
  unfolding plus Language
  plus-Each w (u, v, e, (c, e', k), rest) =
      subst (λ w. Each P w × (1 ≤ length w)) (sym (e ∙ ap (λ x. x ++ v) e'))
        (((same c).0 k, star-Each v rest), omega arith)

  Each-plus : (w : List ℕ) → Each P w → 1 ≤ length w → Language (plus (class p)) w
  unfolding plus Language
  Each-plus [] each some_char = absurd (omega arith)
  Each-plus (c ∷ w) each some_char =
      (c ∷ [], w, refl, (c, refl, (same c).1 each.0), Each-star w each.1)

Language-KeyText : (w : List ℕ) → Language key_regex w ↔ KeyText w
unfolding key_regex Language
Language-KeyText w = (
  λ h.
      let (u, v, e, (c, e', k), rest) = h in
      let (each, short) = up_to-Each is_key KeyRest is_key_lem 63 v rest in
      (c, v, e ∙ ap (λ x. x ++ v) e', (is_start_lem c).0 k, each, short),
  λ h.
      let (c, cs, e, start, each, short) = h in
      (
        c ∷ [],
        cs,
        e,
        (c, refl, (is_start_lem c).1 start),
        Each-up_to is_key KeyRest is_key_lem 63 cs each short,
      ),
)

-- A local part, @, a domain with a dot, and at least two letters after its last part
abbrev pub EmailText : List ℕ → Type 0
EmailText w =
    (local domain : List ℕ) × (top : List ℕ) × (w ≡ local ++ (b'@' ∷ (domain ++ (b'.' ∷ top))))
    × (Each (Among others) local × (1 ≤ length local))
    × (Each (Among (b'.' ∷ b'-' ∷ [])) domain × (1 ≤ length domain))
    × (Each Letter top × (2 ≤ length top))

Language-EmailText : (w : List ℕ) → Language email_regex w → EmailText w
unfolding email_regex Language
Language-EmailText w
      (
        u,
        v,
        e,
        local,
        (
          u',
          v',
          e',
          (c, at, k),
          (u'', v'', e'', domain, (d, z, e''', (c', dot, k'), (f, g, e4, (c'', first, k''), rest))),
        ),
      ) =
    let at_is : v ≡ c ∷ v' = e' ∙ ap (λ x. x ++ v') at in
    let dot_is : v'' ≡ c' ∷ z = e''' ∙ ap (λ x. x ++ z) dot in
    let top_is : z ≡ c'' ∷ g = e4 ∙ ap (λ x. x ++ g) first in
    let c_is : c ≡ b'@' = ground (arith, k) in
    let c'_is : c' ≡ b'.' = ground (arith, k') in
    let (each, some_char) = plus-Each is_letter Letter is_letter_lem g rest in
    (
      u,
      u'',
      c'' ∷ g,
      cc (e, at_is, c_is, e'', dot_is, c'_is, top_is),
      plus-Each is_local (Among others) is_local_lem u local,
      plus-Each is_domain (Among (b'.' ∷ b'-' ∷ [])) is_domain_lem u'' domain,
      (((is_letter_lem c'').0 k'', each), omega arith),
    )

EmailText-Language : (w : List ℕ) → EmailText w → Language email_regex w
unfolding email_regex Language
EmailText-Language w (local, domain, [], e, l, d, t) = absurd (omega (arith, t.1))
EmailText-Language w (local, domain, c ∷ top, e, l, d, t) = (
  local,
  b'@' ∷ (domain ++ (b'.' ∷ (c ∷ top))),
  e,
  Each-plus is_local (Among others) is_local_lem local l.0 l.1,
  (
    b'@' ∷ [],
    domain ++ (b'.' ∷ (c ∷ top)),
    refl,
    (b'@', refl, refl),
    (
      domain,
      b'.' ∷ (c ∷ top),
      refl,
      Each-plus is_domain (Among (b'.' ∷ b'-' ∷ [])) is_domain_lem domain d.0 d.1,
      (
        b'.' ∷ [],
        c ∷ top,
        refl,
        (b'.', refl, refl),
        (
          c ∷ [],
          top,
          refl,
          (c, refl, (is_letter_lem c).1 t.0.0),
          Each-plus is_letter Letter is_letter_lem top t.0.1 (omega (arith, t.1)),
        ),
      ),
    ),
  ),
)

-- ValidateKey accepts exactly the texts of 1 to 64 characters of which the first is a lower-case letter or a digit
-- and each other one of these, _ or -.
pub validate_key_lem : (text : String) → (validate_key text ≡ none) ↔ KeyText (codes text)
unfolding validate_key
validate_key_lem text =
    let (sound, complete) = match_codes_lem key_regex (codes text) in
    (
      λ h. (Language-KeyText (codes text)).0 (sound (ground arith)),
      λ h. let matched = complete ((Language-KeyText (codes text)).1 h) in ground arith,
    )

-- ValidateEmail accepts exactly the texts of at most 254 bytes that are a local part, @, a domain, a dot and at least
-- two letters: the local part is of letters, digits and . _ % + -, the domain of letters, digits, . and -, and
-- neither is empty.
pub validate_email_lem :
    (text : String) → (validate_email text ≡ none) ↔ ((len text ≤ 254) × EmailText (codes text))
unfolding validate_email
validate_email_lem text =
    let (sound, complete) = match_codes_lem email_regex (codes text) in
    (
      λ h. (ground arith, Language-EmailText (codes text) (sound (ground arith))),
      λ h. let matched = complete (EmailText-Language (codes text) h.1) in ground (arith, h.0),
    )
