-- ===== src/Parser/Tags.antt =====
-- Category tags: words of a-z and 0-9, joined by single underscores.
use legallens.Prelude.{
  ℕ, ◌≡◌, ◌⊎◌, inl, refl, Bool, true, false, not, ◌&&◌, [], ◌∷◌, Text, nat_beq, arith,
  if◌then◌else◌,
}
use legallens.Python.Strings.{strip_left, strip_right, lower}
use legallens.Parser.{is_tag_char, squash, search_category, raw_category, normalize_category}

-- Tag characters and single underscores; `prev` says that the character before is an underscore.
abbrev is_single : Bool → Text → Bool
is_single prev [] = true
is_single prev (c ∷ s) =
    let word = is_single false s in
    let gap = is_single true s in if is_tag_char c then word else nat_beq c b'_' && not prev && gap

-- Words joined by single underscores, with none at the end; with `prev` also none at the start.
abbrev pub is_joined : Bool → Text → Bool
is_joined prev [] = not prev
is_joined prev (c ∷ s) =
    let word = is_joined false s in
    let gap = is_joined true s in if is_tag_char c then word else nat_beq c b'_' && not prev && gap

abbrev is_underscore : ℕ → Bool
is_underscore c = nat_beq c b'_'

squash_single : (gap : Bool) (s : Text) → is_single gap (squash gap s) ≡ true
unfolding squash is_tag_char
squash_single gap [] = refl
squash_single gap (c ∷ s) = ground (arith, squash_single true s, squash_single false s)

strip_left_after :
    (s : Text) → is_single true s ≡ true → is_single true (strip_left is_underscore s) ≡ true
unfolding strip_left is_tag_char
strip_left_after [] h = refl
strip_left_after (c ∷ s) h = ground arith

strip_left_single :
    (s : Text) → is_single false s ≡ true → is_single true (strip_left is_underscore s) ≡ true
unfolding strip_left is_tag_char
strip_left_single [] h = refl
strip_left_single (c ∷ s) h = ground (arith, strip_left_after s)

strip_right_joined :
    (prev : Bool) (s : Text)
    → is_single prev s ≡ true
    → (strip_right is_underscore s ≡ []) ⊎ (is_joined prev (strip_right is_underscore s) ≡ true)
unfolding strip_right
strip_right_joined prev [] h = inl refl
strip_right_joined prev (c ∷ s) h =
    ground (arith, strip_right_joined true s, strip_right_joined false s)

-- A category tag is empty, or words of a-z and 0-9 joined by single underscores, with no underscore
-- at either end, whatever the question.
pub normalize_category-is_joined :
    (question : Text)
    → (normalize_category question ≡ []) ⊎ (is_joined true (normalize_category question) ≡ true)
unfolding normalize_category
normalize_category-is_joined question =
    let s = lower (raw_category question (search_category question)) in
    strip_right_joined true (strip_left is_underscore (squash false s))
      (strip_left_single (squash false s) (squash_single false s))
