-- ===== src/Python/Decimals.antt =====
-- The decimal numeral of a number is read back by `int`.
use legallens.Prelude.{
  ℕ, zero, suc, ◌+◌, ◌-◌, ◌*◌, ◌/◌, ◌%◌, ◌<◌, ◌≡◌, refl, ap, ◌∙◌, Bool, true, false, not, [], ◌∷◌,
  Text, some, ok, arith, ltb, Bool-cases, inl, inr,
}
use legallens.Python.Strings.{is_space}
use legallens.Python.Encoding.{decimal, decimal_onto}
use legallens.Python.Integers.{pos, is_digit, digits, signed, int}
use legallens.Python.Splits.{every, every_mono, strip-every}

every-decimal_onto :
    (fuel n : ℕ) (rest : Text)
    → every is_digit rest ≡ true
    → every is_digit (decimal_onto fuel n rest) ≡ true
unfolding decimal_onto is_digit
every-decimal_onto zero n rest h = h
every-decimal_onto (suc fuel) n rest h =
    ground (arith, every-decimal_onto fuel (n / 10) ((b'0' + n % 10) ∷ rest))

pub every-decimal : (n : ℕ) → every is_digit (decimal n) ≡ true
unfolding decimal
every-decimal n = every-decimal_onto (n + 1) n [] refl

digits-cons :
    (m : ℕ) (after : Bool) (c : ℕ) (s : Text)
    → is_digit c ≡ true
    → digits m after (c ∷ s) ≡ digits (m * 10 + (c - b'0')) true s
unfolding digits
digits-cons m true c s h = rw h refl
digits-cons m false c s h = rw h refl

digit_of : (n : ℕ) → is_digit (b'0' + n % 10) ≡ true
unfolding is_digit
digit_of n = ground arith

digits-decimal_onto :
    (fuel n : ℕ) (after : Bool) (rest : Text)
    → n < fuel
    → digits 0 after (decimal_onto fuel n rest) ≡ digits n true rest
unfolding decimal_onto
digits-decimal_onto zero n after rest h = absurd (omega arith)
digits-decimal_onto (suc fuel) n after rest h = elim (Bool-cases (ltb n 10)) [
  | inl small ↦ rw small (
      digits-cons 0 after (b'0' + n % 10) rest (digit_of n)
      ∙ ap (λ m. digits m true rest) (ground arith))
  | inr large ↦ rw large (
      digits-decimal_onto fuel (n / 10) after ((b'0' + n % 10) ∷ rest) (ground arith)
      ∙ digits-cons (n / 10) true (b'0' + n % 10) rest (digit_of n)
      ∙ ap (λ m. digits m true rest) (omega arith))
]

pub digits-decimal : (n : ℕ) → digits 0 false (decimal n) ≡ some n
unfolding decimal digits
digits-decimal n = digits-decimal_onto (n + 1) n false [] (omega arith)

signed-digits :
    (s : Text) (n : ℕ) → every is_digit s ≡ true → digits 0 false s ≡ some n → signed s ≡ ok (pos n)
unfolding signed is_digit
signed-digits [] n all h = cc
signed-digits (c ∷ s) n all h = ground arith

-- `int(str(n))` is `n`.
pub int-decimal : (n : ℕ) → int (decimal n) ≡ ok (pos n)
unfolding int is_space is_digit
int-decimal n =
    ap signed (
      strip-every is_space (decimal n) (
        every_mono is_digit (λ c. not (is_space c)) (λ c h. ground arith) (decimal n)
          (every-decimal n)))
    ∙ signed-digits (decimal n) n (every-decimal n) (digits-decimal n)
