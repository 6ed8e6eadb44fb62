-- ===== src/Redis.antt =====
-- What the program relies on of the Redis server and of redis-py, which are not part of it: an
-- interface with the documented behaviour of the commands that the program sends. Time is in
-- seconds, and is handed to each command that reads the clock.
pub mod Memory
use legallens.Prelude.{
  ℕ, ◌+◌, ◌≤◌, ◌≡◌, Bool, true, false, ◌&&◌, List, [], ◌∷◌, ◌++◌, Option, none, some, Text, text_eq,
  ltb, contains, ◌==◌, if◌then◌else◌,
}

-- `str.startswith`
unfoldable pub starts_with : Text → Text → Bool
unfolding text_eq
starts_with [] s = true
starts_with (a ∷ p) [] = false
starts_with (a ∷ p) (b ∷ s) = if (a ∷ []) == (b ∷ []) then starts_with p s else false

pub record Redis : Type 1 where
  -- What the server holds.
  pub Store : Type 0
  -- LRANGE key 0 -1
  pub entries : Store → Text → List Text
  pub rpush : Text → Text → Store → Store
  -- BLPOP: none where nothing came before the timeout.
  pub blpop : Text → Store → Option Text × Store
  -- Is the key there at this time?
  pub live : Store → ℕ → Text → Bool
  -- SET key 1 EX ttl, at a time
  pub set_ex : ℕ → Text → ℕ → Store → Store
  pub delete : Text → Store → Store
  -- The messages sent so far, the last one last.
  pub published : Store → List (Text × Text)
  pub publish : Text → Text → Store → Store
  -- SCAN with a pattern `prefix*`, at a time: any order, and a key may come more than once.
  pub scan : Store → ℕ → Text → List Text
  pub entries-rpush :
      (s : Store) (k v j : Text)
      → entries (rpush k v s) j ≡ (if j == k then entries s k ++ v ∷ [] else entries s j)
  -- A key holds one value: SET and DEL replace a list.
  pub entries-set_ex :
      (s : Store) (now ttl : ℕ) (k j : Text)
      → entries (set_ex now k ttl s) j ≡ (if j == k then [] else entries s j)
  pub entries-delete :
      (s : Store) (k j : Text) → entries (delete k s) j ≡ (if j == k then [] else entries s j)
  pub entries-publish : (s : Store) (c m j : Text) → entries (publish c m s) j ≡ entries s j
  pub blpop_empty : (s : Store) (k : Text) → entries s k ≡ [] → blpop k s ≡ (none, s)
  pub blpop_first :
      (s : Store) (k v : Text) (rest : List Text) → entries s k ≡ v ∷ rest → (blpop k s).0 ≡ some v
  pub entries-blpop :
      (s : Store) (k v : Text) (rest : List Text) (j : Text)
      → entries s k ≡ v ∷ rest
      → entries (blpop k s).1 j ≡ (if j == k then rest else entries s j)
  pub live-set_ex :
      (s : Store) (now ttl t : ℕ) (k j : Text)
      → now ≤ t
      → live (set_ex now k ttl s) t j ≡ (if j == k then ltb t (now + ttl) else live s t j)
  pub live-delete :
      (s : Store) (t : ℕ) (k j : Text)
      → live (delete k s) t j ≡ (if j == k then false else live s t j)
  pub live-publish : (s : Store) (t : ℕ) (c m j : Text) → live (publish c m s) t j ≡ live s t j
  pub published-publish :
      (s : Store) (c m : Text) → published (publish c m s) ≡ published s ++ (c, m) ∷ []
  pub contains-scan :
      (s : Store) (t : ℕ) (p k : Text) → contains (scan s t p) k ≡ (starts_with p k && live s t k)
