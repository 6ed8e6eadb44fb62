-- ===== src/Python/Splits.antt =====
-- Texts without a character: what `split` and `strip` do with them.
use legallens.Prelude.{
  ℕ, ◌≡◌, refl, ap, ◌∙◌, Bool, true, not, ◌&&◌, List, [], ◌∷◌, ◌++◌, Text, All, arith, nat_beq,
  is_empty,
}
use legallens.Python.Strings.{cons_first, join, split, strip, strip_left, strip_right}

-- All characters meet the test.
abbrev pub every : (ℕ → Bool) → Text → Bool
every q [] = true
every q (c ∷ s) = q c && every q s

abbrev pub lacks : ℕ → Text → Bool
lacks sep = every (λ c. not (nat_beq c sep))

pub every-append : (q : ℕ → Bool) (s t : Text) → every q (s ++ t) ≡ (every q s && every q t)
every-append q [] t = refl
every-append q (c ∷ s) t = ground (arith, every-append q s t)

pub every_mono :
    (q r : ℕ → Bool)
    → ((c : ℕ) → q c ≡ true → r c ≡ true)
    → (s : Text) → every q s ≡ true
    → every r s ≡ true
every_mono q r h [] e = refl
every_mono q r h (c ∷ s) e = ground (arith, h c, every_mono q r h s)

pub split-lacks : (sep : ℕ) (t : Text) → lacks sep t ≡ true → split sep t ≡ t ∷ []
unfolding split cons_first
split-lacks sep [] h = refl
split-lacks sep (c ∷ t) h = ground (arith, split-lacks sep t)

pub split-append :
    (sep : ℕ) (t s : Text) → lacks sep t ≡ true → split sep (t ++ sep ∷ s) ≡ t ∷ split sep s
unfolding split cons_first
split-append sep [] s h = ground arith
split-append sep (c ∷ t) s h = ground (arith, split-append sep t s)

-- Texts without the separator, joined by it, are split again.
pub split-join :
    (sep : ℕ) (t : Text) (ts : List Text)
    → All (λ x. lacks sep x ≡ true) (t ∷ ts)
    → split sep (join (sep ∷ []) (t ∷ ts)) ≡ t ∷ ts
unfolding join
split-join sep t [] h = split-lacks sep t h.0
split-join sep t (u ∷ ts) h =
    split-append sep t (join (sep ∷ []) (u ∷ ts)) h.0 ∙ ap (◌∷◌ t) (split-join sep u ts h.1)

every-strip_left : (p : ℕ → Bool) (s : Text) → every p (strip_left p s) ≡ every p s
unfolding strip_left
every-strip_left p [] = refl
every-strip_left p (c ∷ s) = ground (arith, every-strip_left p s)

is_empty-strip_right : (p : ℕ → Bool) (s : Text) → is_empty (strip_right p s) ≡ every p s
unfolding strip_right
is_empty-strip_right p [] = refl
is_empty-strip_right p (c ∷ s) = ground (arith, is_empty-strip_right p s)

-- A text is stripped to nothing when all its characters are stripped.
pub is_empty-strip : (p : ℕ → Bool) (s : Text) → is_empty (strip p s) ≡ every p s
unfolding strip
is_empty-strip p s = is_empty-strip_right p (strip_left p s) ∙ every-strip_left p s

strip_right-every :
    (p : ℕ → Bool) (s : Text) → every (λ c. not (p c)) s ≡ true → strip_right p s ≡ s
unfolding strip_right
strip_right-every p [] h = refl
strip_right-every p (c ∷ s) h = ground (arith, strip_right-every p s)

pub strip-every : (p : ℕ → Bool) (s : Text) → every (λ c. not (p c)) s ≡ true → strip p s ≡ s
unfolding strip strip_left
strip-every p [] h = strip_right-every p [] h
strip-every p (c ∷ s) h = ground (arith, strip_right-every p (c ∷ s))
