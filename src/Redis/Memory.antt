-- ===== src/Redis/Memory.antt =====
-- A server in memory that meets the interface, for the theorems' examples.
use legallens.Prelude.{
  ℕ, ◌+◌, ◌≤◌, ◌≡◌, refl, Bool, false, ◌&&◌, ◌||◌, List, [], ◌∷◌, ◌++◌, Option, none, some, Text,
  text_eq, ltb, contains, ◌==◌, if◌then◌else◌, keep, arith, is_empty, not,
}
use legallens.Prelude.Dict.{
  Dict, keys, lookup, insert, erase, lookup-insert, lookup-erase, contains-keys,
}
use legallens.Redis.{Redis, starts_with}

pub record Data : Type 0 where
  pub lists : Dict Text (List Text)
  -- When a key expires.
  pub strings : Dict Text ℕ
  pub sent : List (Text × Text)

abbrev pub nothing : Data
nothing = record { lists = []; strings = []; sent = [] }

abbrev entries : Data → Text → List Text
entries s k = elim (lookup k s.lists) [ none ↦ [] | some xs ↦ xs ]

abbrev live : Data → ℕ → Text → Bool
live s t k =
    not (is_empty (entries s k)) || elim (lookup k s.strings) [ none ↦ false | some e ↦ ltb t e ]

abbrev rpush : Text → Text → Data → Data
rpush k v s = record s { lists = insert k (entries s k ++ v ∷ []) s.lists }

abbrev first_of_list : List Text → Option Text
first_of_list [] = none
first_of_list (v ∷ rest) = some v

abbrev rest_of_list : List Text → Text → Data → Data
rest_of_list [] k s = s
rest_of_list (v ∷ rest) k s = record s { lists = insert k rest s.lists }

abbrev blpop : Text → Data → Option Text × Data
blpop k s = (first_of_list (entries s k), rest_of_list (entries s k) k s)

abbrev set_ex : ℕ → Text → ℕ → Data → Data
set_ex now k ttl s = record s { lists = erase k s.lists; strings = insert k (now + ttl) s.strings }

abbrev delete : Text → Data → Data
delete k s = record s { lists = erase k s.lists; strings = erase k s.strings }

abbrev publish : Text → Text → Data → Data
publish c m s = record s { sent = s.sent ++ (c, m) ∷ [] }

abbrev scan : Data → ℕ → Text → List Text
scan s t p = keep (λ k. starts_with p k && live s t k) (keys s.lists ++ keys s.strings)

contains-keep :
    (f : Text → Bool) (xs : List Text) (k : Text) → contains (keep f xs) k ≡ (contains xs k && f k)
contains-keep f [] k = refl
contains-keep f (x ∷ xs) k = ground (arith, contains-keep f xs k)

contains-append :
    (xs ys : List Text) (k : Text) → contains (xs ++ ys) k ≡ (contains xs k || contains ys k)
contains-append [] ys k = refl
contains-append (x ∷ xs) ys k = ground (arith, contains-append xs ys k)

pub entries-rpush :
    (s : Data) (k v j : Text)
    → entries (rpush k v s) j ≡ (if j == k then entries s k ++ v ∷ [] else entries s j)
entries-rpush s k v j = ground (arith, lookup-insert j k (entries s k ++ v ∷ []) s.lists)

pub blpop_empty : (s : Data) (k : Text) → entries s k ≡ [] → blpop k s ≡ (none, s)
blpop_empty s k e = rw e

pub blpop_first :
    (s : Data) (k v : Text) (rest : List Text) → entries s k ≡ v ∷ rest → (blpop k s).0 ≡ some v
blpop_first s k v rest e = rw e

pub entries-blpop :
    (s : Data) (k v : Text) (rest : List Text) (j : Text)
    → entries s k ≡ v ∷ rest
    → entries (blpop k s).1 j ≡ (if j == k then rest else entries s j)
entries-blpop s k v rest j e = rw e (ground (arith, lookup-insert j k rest s.lists))

pub entries-erase :
    (s : Data) (k j : Text)
    → entries (record s { lists = erase k s.lists }) j ≡ (if j == k then [] else entries s j)
entries-erase s k j = ground (arith, lookup-erase j k s.lists)

pub live-set_ex :
    (s : Data) (now ttl t : ℕ) (k j : Text)
    → now ≤ t
    → live (set_ex now k ttl s) t j ≡ (if j == k then ltb t (now + ttl) else live s t j)
live-set_ex s now ttl t k j h =
    ground (arith, lookup-insert j k (now + ttl) s.strings, lookup-erase j k s.lists)

pub live-delete :
    (s : Data) (t : ℕ) (k j : Text) → live (delete k s) t j ≡ (if j == k then false else live s t j)
live-delete s t k j = ground (arith, lookup-erase j k s.strings, lookup-erase j k s.lists)

pub contains-scan :
    (s : Data) (t : ℕ) (p k : Text) → contains (scan s t p) k ≡ (starts_with p k && live s t k)
contains-scan s t p k = ground (
  arith,
  contains-keep (λ k. starts_with p k && live s t k) (keys s.lists ++ keys s.strings) k,
  contains-append (keys s.lists) (keys s.strings) k,
  contains-keys s.lists k,
  contains-keys s.strings k,
)

abbrev pub memory : Redis
memory = record {
  Store = Data;
  entries = entries;
  rpush = rpush;
  blpop = blpop;
  live = live;
  set_ex = set_ex;
  delete = delete;
  published = λ s. s.sent;
  publish = publish;
  scan = scan;
  entries-rpush = entries-rpush;
  entries-set_ex = λ s now ttl k j. entries-erase s k j;
  entries-delete = entries-erase;
  entries-publish = λ s c m j. refl;
  blpop_empty = blpop_empty;
  blpop_first = blpop_first;
  entries-blpop = entries-blpop;
  live-set_ex = live-set_ex;
  live-delete = live-delete;
  live-publish = λ s t c m j. refl;
  published-publish = λ s c m. refl;
  contains-scan = contains-scan;
}
