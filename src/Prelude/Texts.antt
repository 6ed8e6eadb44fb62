-- ===== src/Prelude/Texts.antt =====
-- Python's `str` as its list of code points: `==` compares them one by one, and so does `sorted`.
use Prim.Native.Nat.{ℕ}
use Prim.Native.Char.{code}
use Prim.Native.String.{String}
use mathlib.Core.List.{List, [], ◌∷◌}
use native.Mathlib.Decide.{ℕ_discrete}
use legallens.Prelude.Tests.{Eq, ltb, if◌then◌else◌}
use mathlib.Core.Bool.{Bool, true, false}

abbrev pub Text : Type 0
Text = List ℕ

-- The code points of a literal.
abbrev pub codes : String → Text
codes String.[] = []
codes (String.◌∷◌ c s) = code c ∷ codes s

-- Shut in proofs, where a split on `s == t` yields the equation or its negation.
instance unfoldable pub nat_eq : Eq ℕ
unfolding ℕ_discrete
nat_eq = record { dec = ℕ_discrete }

text_dec : Discrete Text
unfolding ℕ_discrete
text_dec = hlevel ℕ_discrete

instance unfoldable pub text_eq : Eq Text
unfolding text_dec
text_eq = record { dec = text_dec }

-- `s <= t` of two texts.
unfoldable pub text_leb : Text → Text → Bool
text_leb [] t = true
text_leb (a ∷ s) [] = false
text_leb (a ∷ s) (b ∷ t) = if ltb a b then true else if ltb b a then false else text_leb s t
