-- ===== src/Utils/Regex.antt =====
-- The regular expressions that internal/utils/validation.go compiles, over code points, and a
-- matcher that takes the derivative by one character after another. `^` and `$` anchor both
-- patterns, so a text matches as a whole.
pub mod Language
pub mod Formats
use an.Prelude.{
  ℕ, zero, suc, String, code, Bool, true, false, ◌&&◌, ◌||◌, List, [], ◌∷◌, leb, ◌=ℕ=◌,
  if◌then◌else◌,
}

pub data Regex : Type 0 where
  nothing empty : Regex
  class : (ℕ → Bool) → Regex
  seq alt : Regex → Regex → Regex
  star : Regex → Regex

-- Does it match the empty text
unfoldable pub nullable : Regex → Bool
nullable nothing = false
nullable empty = true
nullable (class p) = false
nullable (seq r s) = nullable r && nullable s
nullable (alt r s) = nullable r || nullable s
nullable (star r) = true

-- What is left to match after one character
unfoldable pub deriv : ℕ → Regex → Regex
unfolding nullable
deriv c nothing = nothing
deriv c empty = nothing
deriv c (class p) = if p c then empty else nothing
deriv c (seq r s) =
    let rest = deriv c s in if nullable r then alt (seq (deriv c r) s) rest else seq (deriv c r) s
deriv c (alt r s) = alt (deriv c r) (deriv c s)
deriv c (star r) = seq (deriv c r) (star r)

-- regexp.Regexp.MatchString of an anchored pattern
unfoldable pub match_codes : Regex → List ℕ → Bool
unfolding nullable deriv
match_codes r [] = nullable r
match_codes r (c ∷ cs) = match_codes (deriv c r) cs

abbrev pub codes : String → List ℕ
codes String.[] = []
codes (String.◌∷◌ c s) = code c ∷ codes s

-- r+, and r{0,n}
unfoldable pub plus : Regex → Regex
plus r = seq r (star r)

unfoldable pub up_to : ℕ → Regex → Regex
up_to zero r = empty
up_to (suc n) r = alt empty (seq r (up_to n r))

abbrev pub between : ℕ → ℕ → ℕ → Bool
between lo hi c = leb lo c && leb c hi

unfoldable pub is_lower : ℕ → Bool
is_lower c = between b'a' b'z' c

unfoldable pub is_letter : ℕ → Bool
unfolding is_lower
is_letter c = is_lower c || between b'A' b'Z' c

unfoldable pub is_digit : ℕ → Bool
is_digit c = between b'0' b'9' c

-- [a-zA-Z0-9._%+-]
unfoldable pub is_local : ℕ → Bool
unfolding is_letter is_digit
is_local c =
    is_letter c || is_digit c || c =ℕ= b'.' || c =ℕ= b'_' || c =ℕ= b'%' || c =ℕ= b'+' || c =ℕ= b'-'

-- [a-zA-Z0-9.-]
unfoldable pub is_domain : ℕ → Bool
unfolding is_letter is_digit
is_domain c = is_letter c || is_digit c || c =ℕ= b'.' || c =ℕ= b'-'

-- [a-z0-9_-]
unfoldable pub is_key : ℕ → Bool
unfolding is_lower is_digit
is_key c = is_lower c || is_digit c || c =ℕ= b'_' || c =ℕ= b'-'

-- ^[a-z0-9][a-z0-9_-]{0,63}$
unfoldable pub key_regex : Regex
unfolding up_to is_key is_lower is_digit
key_regex = seq (class (λ c. is_lower c || is_digit c)) (up_to 63 (class is_key))

-- ^[a-zA-Z0-9._%+-]+@[a-zA-Z0-9.-]+\.[a-zA-Z]{2,}$
unfoldable pub email_regex : Regex
unfolding plus is_local is_domain is_letter
email_regex = seq (plus (class is_local)) (
    seq (class (λ c. c =ℕ= b'@')) (
      seq (plus (class is_domain))
        (seq (class (λ c. c =ℕ= b'.')) (seq (class is_letter) (plus (class is_letter))))))
