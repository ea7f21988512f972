-- ===== src/Utils/Validation.antt =====
-- The checks of internal/utils/validation.go and the bounds of internal/utils/crypto.go. A check
-- returns nothing, or the text of its error.
use an.Prelude.{
  ℕ, String, len, Bool, true, false, Option, none, some, List, [], ◌∷◌, ltb, not, ◌=ℕ=◌,
  if◌then◌else◌,
}
use an.Utils.Regex.{codes, match_codes, key_regex, email_regex}

unfoldable pub validate_key : String → Option String
unfolding match_codes key_regex
validate_key key =
    if not (match_codes key_regex (codes key))
    then some "invalid key: must match ^[a-z0-9][a-z0-9_-]{0,63}$"
    else none

unfoldable pub validate_email : String → Option String
unfolding match_codes email_regex
validate_email email =
    if ltb 254 (len email)
    then some "email too long"
    else if not (match_codes email_regex (codes email))
    then some "invalid email format"
    else none

unfoldable pub validate_name : String → Option String
validate_name name = if ltb 128 (len name) then some "name must be at most 128 characters" else none

unfoldable pub validate_password : String → Option String
validate_password password =
    if ltb (len password) 8
    then some "password must be at least 8 characters"
    else if ltb 72 (len password)
    then some "password must be at most 72 bytes"
    else none

-- The loop over the runes of a code
unfoldable pub all_digits : List ℕ → Bool
all_digits [] = true
all_digits (c ∷ cs) = if ltb c b'0' then false else if ltb b'9' c then false else all_digits cs

unfoldable pub validate_code : String → ℕ → Option String
unfolding all_digits
validate_code text size =
    if not (len text =ℕ= size)
    then some "invalid code"
    else if all_digits (codes text)
    then none
    else some "invalid code"
