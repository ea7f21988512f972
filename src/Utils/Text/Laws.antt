-- ===== src/Utils/Text/Laws.antt =====
-- Laws of Cut, TrimSuffix and slicing (strings).
use an.Prelude.{
  ℕ, ◌≡◌, refl, ap, sym, ◌∙◌, String, len, slice, ◌<>◌, false, none, some, arith, code, Bool-cases,
  Option-cases, inl, inr, ◌=ℕ=◌,
}
use Prim.Native.Char.{Char}
use text.Mathlib.TextEquality.{Char-path}
use text.Mathlib.TextPositions.{len-append, slice-append_right}
use text.Mathlib.TextLemmas.{nil-append, cons-append}
use an.Utils.Text.{cut, has_char, prefixed}

-- The text after a known prefix
pub slice-suffix : (s t : String) → slice (s <> t) (len s) (len (s <> t)) ≡ t
slice-suffix s t = ap (slice (s <> t) (len s)) (len-append s t) ∙ slice-append_right s t

module _ (d : ℕ) where
  -- A text without the character, then the character, then any text
  pub cut-append :
      (before after sep : String)
      → has_char d before ≡ false
      → cut d sep ≡ some ("", after)
      → cut d (before <> sep) ≡ some (before, after)
  unfolding cut has_char prefixed
  cut-append String.[] after sep h k = ap (cut d) (nil-append sep) ∙ k
  cut-append (String.◌∷◌ c s) after sep h k =
      ap (cut d) (cons-append c s sep) ∙ ground (arith, cut-append s after sep)

  pub cut-absent : (s : String) → has_char d s ≡ false → cut d s ≡ none
  unfolding cut has_char prefixed
  cut-absent String.[] h = refl
  cut-absent (String.◌∷◌ c s) h = ground (arith, cut-absent s)

  -- What Cut finds is around the first occurrence of the character.
  pub cut_sound :
      (mark : Char) (s : String) {before after : String}
      → code mark ≡ d
      → cut d s ≡ some (before, after)
      → (s ≡ before <> String.◌∷◌ mark after) × (has_char d before ≡ false)
  unfolding cut has_char prefixed
  cut_sound mark String.[] e h = cc
  cut_sound mark (String.◌∷◌ c s) {before} {after} e h = elim (Bool-cases (code c =ℕ= d)) [
    | inl same ↦
        let (no_before, rest_is) : ("" ≡ before) × (s ≡ after) = ground arith in
        let c_is : c ≡ mark = Char-path c mark (ground (arith, e)) in
        (
          cc (nil-append (String.◌∷◌ mark after), c_is, no_before, rest_is),
          ap (has_char d) (sym no_before),
        )
    | inr other ↦ elim (Option-cases (cut d s)) [
      | inl absent ↦ ground arith
      | inr ((first, rest), found) ↦
          let (before_is, after_is) : (String.◌∷◌ c first ≡ before) × (rest ≡ after) =
            ground arith in
          let (whole, clear) = cut_sound mark s {before = first} {after = rest} e found in
          (
            cc (cons-append c first (String.◌∷◌ mark rest), whole, before_is, after_is),
            ap (has_char d) (sym before_is) ∙ ground arith,
          )
    ]
  ]
