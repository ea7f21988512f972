-- ===== src/Utils/Secrets/Digits.antt =====
-- The logon codes that RandomDigits draws, and the check of a presented code (internal/utils/crypto.go,
-- internal/utils/validation.go).
use an.Prelude.{
  ℕ, zero, suc, ◌+◌, ◌<◌, ◌≡◌, refl, ap, ◌∙◌, subst, String, len, slice, ◌<>◌, code, true, false,
  none, some, arith, ltb,
}
use Prim.Native.Char.{Char}
use text.Mathlib.TextPositions.{len-append}
use text.Mathlib.TextLemmas.{nil-append, cons-append}
use an.Error.{ok, untyped}
use an.World.{World, Env}
use an.Exec.{M, pure, draw, from_option, ◌>>=◌}
use an.Exec.Rules.{bind-ok}
use an.Exec.Yields.{pure-ok}
use an.Utils.Regex.{codes}
use an.Utils.Secrets.{random_digits}
use an.Utils.Validation.{all_digits, validate_code}

-- A text of one digit
abbrev OneDigit : String → Type 0
OneDigit s =
    (c : Char) × (s ≡ String.◌∷◌ c "")
    × (len s ≡ 1)
    × (ltb (code c) b'0' ≡ false)
    × (ltb b'9' (code c) ≡ false)

digit_lem : (d : ℕ) → d < 10 → OneDigit (slice "0123456789" d (d + 1))
digit_lem zero h = (_, refl, refl, refl, refl)
digit_lem (suc zero) h = (_, refl, refl, refl, refl)
digit_lem (suc (suc zero)) h = (_, refl, refl, refl, refl)
digit_lem (suc (suc (suc zero))) h = (_, refl, refl, refl, refl)
digit_lem (suc (suc (suc (suc zero)))) h = (_, refl, refl, refl, refl)
digit_lem (suc (suc (suc (suc (suc zero))))) h = (_, refl, refl, refl, refl)
digit_lem (suc (suc (suc (suc (suc (suc zero)))))) h = (_, refl, refl, refl, refl)
digit_lem (suc (suc (suc (suc (suc (suc (suc zero))))))) h = (_, refl, refl, refl, refl)
digit_lem (suc (suc (suc (suc (suc (suc (suc (suc zero)))))))) h = (_, refl, refl, refl, refl)
digit_lem (suc (suc (suc (suc (suc (suc (suc (suc (suc zero))))))))) h = (_, refl, refl, refl, refl)
digit_lem (suc (suc (suc (suc (suc (suc (suc (suc (suc (suc n)))))))))) h =
    let absurd : ⊥ = omega arith in elim absurd [ ]

-- crypto/rand.Int gives a number below its bound.
abbrev pub Bounded : Env → Type 0
Bounded env = (step bound d : ℕ) → env.random_int step bound ≡ some d → d < bound

-- A text of `n` digits
abbrev Digits : ℕ → String → Type 0
Digits n s = (len s ≡ n) × (all_digits (codes s) ≡ true)

first_digit :
    (c : Char) (rest : String)
    → ltb (code c) b'0' ≡ false
    → ltb b'9' (code c) ≡ false
    → all_digits (codes (String.◌∷◌ c rest)) ≡ all_digits (codes rest)
unfolding all_digits
first_digit c rest low high = rw (low, high) refl

cons-Digits :
    (n : ℕ) (digit rest : String) → OneDigit digit → Digits n rest → Digits (suc n) (digit <> rest)
unfolding all_digits
cons-Digits n digit rest (c, same, one, low, high) h =
    let joined : digit <> rest ≡ String.◌∷◌ c rest =
      ap (λ t. t <> rest) same
      ∙ cons-append c "" rest
      ∙ ap (λ t. String.◌∷◌ c t) (nil-append rest) in
    let long = len-append digit rest in
    (ground arith, ap (λ t. all_digits (codes t)) joined ∙ first_digit c rest low high ∙ h.1)

abbrev digit : ℕ → String
digit d = slice "0123456789" d (d + 1)

abbrev drawn : M ℕ
drawn = draw (λ env step. from_option (untyped "rand") (env.random_int step 10))

drawn-ok :
    (env : Env) (w : World) {d : ℕ} → (drawn env w).0 ≡ ok d → env.random_int w.step 10 ≡ some d
unfolding ◌>>=◌
drawn-ok env w h = ground arith

random_digits-Digits :
    (n : ℕ) (env : Env) (w : World) {s : String}
    → Bounded env
    → (random_digits n env w).0 ≡ ok s
    → Digits n s
unfolding random_digits all_digits
random_digits-Digits zero env w {s} law h = subst (Digits zero) (pure-ok "" env w h) (refl, refl)
random_digits-Digits (suc n) env w {s} law h =
    let (d, first, second, _) =
      bind-ok drawn (λ d. random_digits n >>= λ rest. pure (digit d <> rest)) env w h in
    let (rest, third, last, _) =
      bind-ok (random_digits n) (λ rest. pure (digit d <> rest)) env (drawn env w).1 second in
    subst (Digits (suc n)) (pure-ok (digit d <> rest) env _ last) (
      cons-Digits n (digit d) rest (digit_lem d (law w.step 10 d (drawn-ok env w first)))
        (random_digits-Digits n env (drawn env w).1 law third))

-- Every code of `n` digits that is drawn has exactly `n` bytes and passes the check of a presented code, if
-- crypto/rand.Int gives a number below its bound.
pub random_digits-valid :
    (n : ℕ) (env : Env) (w : World) {s : String}
    → Bounded env
    → (random_digits n env w).0 ≡ ok s
    → (len s ≡ n) × (validate_code s n ≡ none)
unfolding validate_code
random_digits-valid n env w law h =
    let (long, digits) = random_digits-Digits n env w law h in (long, rw digits (ground arith))
