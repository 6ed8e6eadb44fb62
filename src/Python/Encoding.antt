-- ===== src/Python/Encoding.antt =====
-- `str.encode("utf-8")`, decimal numerals in f-strings, and `int(text, 16)`.
use legallens.Prelude.{
  ℕ, zero, suc, ◌+◌, ◌-◌, ◌*◌, ◌/◌, ◌%◌, List, [], ◌∷◌, ◌++◌, Text, ltb, leb, ◌&&◌, if◌then◌else◌,
}

-- The bytes of one code point.
encode_char : ℕ → List ℕ
encode_char c =
    if ltb c 0x80
    then c ∷ []
    else if ltb c 0x800
    then (0xc0 + c / 64) ∷ (0x80 + c % 64) ∷ []
    else if ltb c 0x1_0000
    then (0xe0 + c / 4096) ∷ (0x80 + c / 64 % 64) ∷ (0x80 + c % 64) ∷ []
    else (0xf0 + c / 262_144) ∷ (0x80 + c / 4096 % 64) ∷ (0x80 + c / 64 % 64) ∷ (0x80 + c % 64) ∷ []

unfoldable pub encode_utf8 : Text → List ℕ
unfolding encode_char
encode_utf8 [] = []
encode_utf8 (c ∷ s) = encode_char c ++ encode_utf8 s

-- The digits of `n` in front of `rest`; a number has no more digits than its value plus one.
unfoldable pub decimal_onto : ℕ → ℕ → Text → Text
decimal_onto zero n rest = rest
decimal_onto (suc fuel) n rest =
    let digit = b'0' + n % 10 in
    let more = decimal_onto fuel (n / 10) (digit ∷ rest) in if ltb n 10 then digit ∷ rest else more

unfoldable pub decimal : ℕ → Text
unfolding decimal_onto
decimal n = decimal_onto (n + 1) n []

-- The value of a hexadecimal digit, of either case.
hex_digit : ℕ → ℕ
hex_digit c =
    if leb b'0' c && leb c b'9'
    then c - b'0'
    else if leb b'a' c
    then c - b'a' + 10
    else c - b'A' + 10

int_16_from : ℕ → Text → ℕ
int_16_from n [] = n
int_16_from n (c ∷ s) = int_16_from (n * 16 + hex_digit c) s

-- `int(s, 16)` of a text of hexadecimal digits, such as a digest.
unfoldable pub int_16 : Text → ℕ
unfolding hex_digit int_16_from
int_16 s = int_16_from 0 s
