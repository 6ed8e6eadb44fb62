-- ===== src/Sentinel/Addresses.antt =====
-- Lists of sentinels, written as a setting and read back.
use legallens.Prelude.{
  ℕ, ◌≡◌, refl, ap, ◌∙◌, true, false, not, List, [], ◌∷◌, ◌++◌, map, keep, Text, Outcome, ok, raise,
  value_error, some, ◌>>=◌, All, arith, is_empty, nat_beq,
}
use legallens.Python.Strings.{is_space, strip, split, join}
use legallens.Python.Encoding.{decimal}
use legallens.Python.Integers.{ℤ, pos, is_digit, digits, int}
use legallens.Python.Splits.{
  every, lacks, every-append, every_mono, split-lacks, split-append, split-join, is_empty-strip,
}
use legallens.Python.Decimals.{every-decimal, digits-decimal, int-decimal}
use legallens.Sentinel.{unpack, port, addresses, from_settings}

-- An entry of the setting: `host:port`, `host:`, or a host alone.
pub data Address : Type 0 where
  with_port : Text → ℕ → Address
  blank_port : Text → Address
  host_only : Text → Address

abbrev pub show : Address → Text
show (with_port h n) = h ++ b':' ∷ decimal n
show (blank_port h) = h ++ b':' ∷ []
show (host_only h) = h

-- A host has no comma and no colon in it, and alone it is not blank.
abbrev pub IsAddress : Address → Type 0
IsAddress (with_port h n) = (lacks b',' h ≡ true) × (lacks b':' h ≡ true)
IsAddress (blank_port h) = (lacks b',' h ≡ true) × (lacks b':' h ≡ true)
IsAddress (host_only h) = (lacks b',' h ≡ true) × (lacks b':' h ≡ true) × (every is_space h ≡ false)

-- What the entries stand for: a blank port is 26379, and a host alone is an error.
abbrev pub read : List Address → Outcome (List (Text × ℤ))
read [] = ok []
read (with_port h n ∷ xs) = read xs >>= (λ rest. ok ((h, pos n) ∷ rest))
read (blank_port h ∷ xs) = read xs >>= (λ rest. ok ((h, pos 26379) ∷ rest))
read (host_only h ∷ xs) = raise value_error

decimal-lacks : (sep n : ℕ) → is_digit sep ≡ false → lacks sep (decimal n) ≡ true
unfolding is_digit
decimal-lacks sep n h =
    every_mono is_digit (λ c. not (nat_beq c sep)) (λ c d. ground arith) (decimal n)
      (every-decimal n)

show-lacks : (x : Address) → IsAddress x → lacks b',' (show x) ≡ true
unfolding is_digit
show-lacks (with_port h n) v = ground (
  arith,
  every-append (λ c. not (nat_beq c b',')) h (b':' ∷ decimal n),
  decimal-lacks b',' n refl,
)
show-lacks (blank_port h) v = ground (arith, every-append (λ c. not (nat_beq c b',')) h (b':' ∷ []))
show-lacks (host_only h) v = v.0

show-is_space : (x : Address) → IsAddress x → every is_space (show x) ≡ false
unfolding is_space
show-is_space (with_port h n) v = ground (arith, every-append is_space h (b':' ∷ decimal n))
show-is_space (blank_port h) v = ground (arith, every-append is_space h (b':' ∷ []))
show-is_space (host_only h) v = v.2

map-show-lacks :
    (xs : List Address) → All IsAddress xs → All (λ t. lacks b',' t ≡ true) (map show xs)
map-show-lacks [] v = tt
map-show-lacks (x ∷ xs) v = (show-lacks x v.0, map-show-lacks xs v.1)

-- No entry is dropped as blank.
keep-show :
    (xs : List Address)
    → All IsAddress xs
    → keep (λ h. not (is_empty (strip is_space h))) (map show xs) ≡ map show xs
keep-show [] v = refl
keep-show (x ∷ xs) v =
    rw (is_empty-strip is_space (show x), show-is_space x v.0)
      (ap (◌∷◌ (show x)) (keep-show xs v.1))

port-int : (s : Text) (n : ℕ) → digits 0 false s ≡ some n → port s ≡ int s
unfolding port digits
port-int [] n h = cc
port-int (c ∷ s) n h = refl

port-decimal : (n : ℕ) → port (decimal n) ≡ ok (pos n)
port-decimal n = port-int (decimal n) n (digits-decimal n) ∙ int-decimal n

addresses-show :
    (xs : List Address) → All IsAddress xs → addresses (map (split b':') (map show xs)) ≡ read xs
unfolding addresses unpack is_digit
addresses-show [] v = refl
addresses-show (with_port h n ∷ xs) v = rw (
  split-append b':' h (decimal n) v.0.1,
  split-lacks b':' (decimal n) (decimal-lacks b':' n refl),
  port-decimal n,
  addresses-show xs v.1,
)
addresses-show (blank_port h ∷ xs) v =
    rw (split-append b':' h [] v.0.1, split-lacks b':' [] refl, addresses-show xs v.1)
addresses-show (host_only h ∷ xs) v = rw (split-lacks b':' h v.0.1)

-- A setting of entries `host:port`, `host:` and `host`, joined by commas, is read as these addresses,
-- in order, with 26379 for a blank port; but if one of them is a host alone, reading it raises
-- ValueError, whatever the others are. Hosts have no comma and no colon in them.
pub from_settings-join :
    (xs : List Address) (redis_master_name : Text)
    → All IsAddress xs
    → from_settings (join (b',' ∷ []) (map show xs)) redis_master_name ≡ (
        read xs
        >>= (λ sentinels. ok (record { sentinels = sentinels; master_name = redis_master_name })))
unfolding from_settings join
from_settings-join [] name v = refl
from_settings-join (x ∷ xs) name v = rw (
  split-join b',' (show x) (map show xs) (map-show-lacks (x ∷ xs) v),
  keep-show (x ∷ xs) v,
  addresses-show (x ∷ xs) v,
)
