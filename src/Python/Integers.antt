-- ===== src/Python/Integers.antt =====
-- `int(text)`, of ASCII digits: the other decimal digits of Unicode, and the limit on the length of a
-- numeral, are left out.
use legallens.Prelude.{
  ℕ, zero, suc, ◌+◌, ◌-◌, ◌*◌, Bool, true, false, ◌&&◌, [], ◌∷◌, Text, Option, none, some, Outcome,
  ok, raise, value_error, leb, nat_beq, if◌then◌else◌,
}
use legallens.Python.Strings.{is_space, strip}

pub data ℤ : Type 0 where
  pos negsuc : ℕ → ℤ

unfoldable pub is_digit : ℕ → Bool
is_digit c = leb b'0' c && leb c b'9'

-- The value of the digits behind `n`. Between two digits one underscore may stand; the test says that
-- the character before was a digit.
unfoldable pub digits : ℕ → Bool → Text → Option ℕ
unfolding is_digit
digits n true [] = some n
digits n false [] = none
digits n after (c ∷ s) =
    let more = digits (n * 10 + (c - b'0')) true s in
    let next = digits n false s in
    if is_digit c then more else if nat_beq c b'_' && after then next else none

unfoldable pub positive : Option ℕ → Outcome ℤ
positive none = raise value_error
positive (some n) = ok (pos n)

negative : Option ℕ → Outcome ℤ
negative none = raise value_error
negative (some zero) = ok (pos 0)
negative (some (suc n)) = ok (negsuc n)

unfoldable pub signed : Text → Outcome ℤ
unfolding digits positive negative
signed [] = raise value_error
signed (c ∷ s) =
    if nat_beq c b'-'
    then negative (digits 0 false s)
    else if nat_beq c b'+'
    then positive (digits 0 false s)
    else positive (digits 0 false (c ∷ s))

unfoldable pub int : Text → Outcome ℤ
unfolding signed strip is_space
int s = signed (strip is_space s)
