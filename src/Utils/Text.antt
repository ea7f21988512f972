-- ===== src/Utils/Text.antt =====
-- What the program uses of Go's strings and strconv packages, one character after another.
pub mod Laws
use an.Prelude.{
  ℕ, zero, suc, ◌+◌, ◌*◌, ◌-◌, String, ◌==◌, code, Bool, true, false, ◌&&◌, ◌||◌, Option, none,
  some, List, [], ◌∷◌, ltb, leb, ◌=ℕ=◌, if◌then◌else◌,
}
use Prim.Native.Char.{Char}

-- unicode.IsSpace
unfoldable pub is_space : ℕ → Bool
is_space c =
    (leb 9 c && leb c 13)
    || ((c =ℕ= 32)
        || ((c =ℕ= 133)
            || ((c =ℕ= 160)
                || ((c =ℕ= 5760)
                    || ((leb 8192 c && leb c 8202)
                        || ((c =ℕ= 8232)
                            || ((c =ℕ= 8233)
                                || ((c =ℕ= 8239) || ((c =ℕ= 8287) || (c =ℕ= 12288))))))))))

unfoldable pub trim_left : String → String
unfolding is_space
trim_left String.[] = ""
trim_left (String.◌∷◌ c s) =
    let rest = trim_left s in if is_space (code c) then rest else String.◌∷◌ c s

unfoldable pub trim_right : String → String
unfolding is_space
trim_right String.[] = ""
trim_right (String.◌∷◌ c s) =
    let rest = trim_right s in if is_space (code c) && (rest == "") then "" else String.◌∷◌ c rest

-- strings.TrimSpace
unfoldable pub trim_space : String → String
unfolding trim_left trim_right
trim_space s = trim_right (trim_left s)

-- strings.TrimSuffix(s, "/")
unfoldable pub trim_slash : String → String
trim_slash String.[] = ""
trim_slash (String.◌∷◌ c s) =
    let rest = trim_slash s in if (s == "") && (code c =ℕ= b'/') then "" else String.◌∷◌ c rest

-- strings.Contains of one character
unfoldable pub has_char : ℕ → String → Bool
has_char d String.[] = false
has_char d (String.◌∷◌ c s) = let rest = has_char d s in if code c =ℕ= d then true else rest

unfoldable pub prefixed : Char → Option (String × String) → Option (String × String)
prefixed c none = none
prefixed c (some (before, after)) = some (String.◌∷◌ c before, after)

-- strings.Cut at one character: the texts around its first occurrence
unfoldable pub cut : ℕ → String → Option (String × String)
unfolding prefixed
cut d String.[] = none
cut d (String.◌∷◌ c s) =
    let rest = cut d s in if code c =ℕ= d then some ("", s) else prefixed c rest

unfoldable pub add_char : Char → List String → List String
add_char c [] = String.◌∷◌ c "" ∷ []
add_char c (part ∷ parts) = String.◌∷◌ c part ∷ parts

-- strings.Split at one character
unfoldable pub split : ℕ → String → List String
unfolding add_char
split d String.[] = "" ∷ []
split d (String.◌∷◌ c s) =
    let rest = split d s in if code c =ℕ= d then "" ∷ rest else add_char c rest

-- The value of a text of decimal digits, after the digits that came before it
unfoldable pub digits_value : ℕ → String → Option ℕ
digits_value n String.[] = some n
digits_value n (String.◌∷◌ c s) =
    let rest = digits_value (n * 10 + (code c - b'0')) s in
    if leb b'0' (code c) && leb (code c) b'9' then rest else none

unfoldable pub magnitude : String → Option ℕ
unfolding digits_value
magnitude s = if s == "" then none else digits_value 0 s

-- The integers
pub data ℤ : Type 0 where
  pos negsuc : ℕ → ℤ

-- -n, which is `negsuc (n - 1)` unless n is 0
negated : ℕ → ℤ
negated zero = pos zero
negated (suc n) = negsuc n

-- The range of an int of 64 bits, which is one wider for negative numbers
unfoldable pub positive : Option ℕ → Option ℤ
positive none = none
positive (some n) = if ltb n 9223372036854775808 then some (pos n) else none

unfoldable pub negative : Option ℕ → Option ℤ
unfolding negated
negative none = none
negative (some n) = if leb n 9223372036854775808 then some (negated n) else none

-- strconv.Atoi, `none` for its errors
unfoldable pub atoi : String → Option ℤ
unfolding magnitude positive negative
atoi String.[] = none
atoi (String.◌∷◌ c s) =
    if code c =ℕ= b'-'
    then negative (magnitude s)
    else if code c =ℕ= b'+'
    then positive (magnitude s)
    else positive (magnitude (String.◌∷◌ c s))
