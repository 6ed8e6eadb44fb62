-- ===== src/Sentinel/Tests.antt =====
-- A setting with a blank port, and one with a host alone.
use legallens.Prelude.{◌≡◌, refl, List, [], ◌∷◌, map, codes, ok, raise, value_error}
use legallens.Python.Strings.{is_space, strip, split, join}
use legallens.Python.Integers.{pos, negsuc, digits, signed, int}
use legallens.Sentinel.{addresses, from_settings}
use legallens.Sentinel.Addresses.{Address, with_port, blank_port, show, from_settings-join}

sentinel_program : Unit {0}
unfolding is_space strip split join digits signed int addresses from_settings
sentinel_program = tt

default_setting :
    from_settings (codes "localhost:26379, ,b:") (codes "m")
    ≡ ok (record {
      sentinels = (codes "localhost", pos 26_379) ∷ (codes "b", pos 26_379) ∷ [];
      master_name = codes "m";
    })
unfolding sentinel_program
default_setting = refl

without_port : from_settings (codes "a:1,b") (codes "m") ≡ raise value_error
unfolding sentinel_program
without_port = refl

numerals : (int (codes " -1_0\n") ≡ ok (negsuc 9)) × (int (codes "1__0") ≡ raise value_error)
unfolding sentinel_program
numerals = (refl, refl)

abbrev hosts : List Address
hosts = with_port (codes "a") 26_380 ∷ blank_port (codes "b") ∷ []

from_settings-join_example :
    from_settings (join (codes ",") (map show hosts)) (codes "m")
    ≡ ok (record {
      sentinels = (codes "a", pos 26_380) ∷ (codes "b", pos 26_379) ∷ [];
      master_name = codes "m";
    })
from_settings-join_example = from_settings-join hosts (codes "m") ((refl, refl), ((refl, refl), tt))
