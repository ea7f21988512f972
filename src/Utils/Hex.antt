-- ===== src/Utils/Hex.antt =====
-- encoding/hex: EncodeToString, two digits for a byte.
use an.Prelude.{ℕ, ◌+◌, ◌/◌, ◌%◌, String, slice, ◌<>◌, List, [], ◌∷◌}

unfoldable pub hex_digit : ℕ → String
hex_digit n = slice "0123456789abcdef" n (n + 1)

unfoldable pub hex_encode : List ℕ → String
unfolding hex_digit
hex_encode [] = ""
hex_encode (b ∷ bs) = hex_digit (b / 16) <> (hex_digit (b % 16) <> hex_encode bs)
