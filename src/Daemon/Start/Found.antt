-- ===== src/Daemon/Start/Found.antt =====
-- An option that is found has a value of its type.
use one_fass.Base.{ℤ, Bool, Option, none, some, ◌≡◌, refl}
use one_fass.Text.{Text}
use one_fass.Config.Options.{
  Any, string, int, long_int, bool, double, other, is_int, is_long_int, is_bool, any_cast,
  get_option,
}
use one_fass.Config.Options.Reads.{IsFound}
use one_fass.Daemon.Start.{Variables}

-- What an option of the type holds.
cast_int :
    (o : Option Any) {v : Any}
    → any_cast is_int o ≡ some v
    → (n : ℤ) × (any_cast is_int o ≡ some (int n))
cast_int (some (int n)) e = (n, refl)
cast_int none e = cc
cast_int (some (string t)) e = cc
cast_int (some (long_int n)) e = cc
cast_int (some (double t)) e = cc
cast_int (some (bool t)) e = cc
cast_int (some other) e = cc

cast_long :
    (o : Option Any) {v : Any}
    → any_cast is_long_int o ≡ some v
    → (n : ℤ) × (any_cast is_long_int o ≡ some (long_int n))
cast_long (some (long_int n)) e = (n, refl)
cast_long none e = cc
cast_long (some (string t)) e = cc
cast_long (some (int n)) e = cc
cast_long (some (double t)) e = cc
cast_long (some (bool t)) e = cc
cast_long (some other) e = cc

cast_bool :
    (o : Option Any) {v : Any}
    → any_cast is_bool o ≡ some v
    → (t : Bool) × (any_cast is_bool o ≡ some (bool t))
cast_bool (some (bool t)) e = (t, refl)
cast_bool none e = cc
cast_bool (some (string t)) e = cc
cast_bool (some (int n)) e = cc
cast_bool (some (long_int n)) e = cc
cast_bool (some (double t)) e = cc
cast_bool (some other) e = cc

pub found_int :
    (vm : Variables) (section name : Text)
    → IsFound vm (section, name, is_int)
    → (n : ℤ) × (get_option is_int vm section name ≡ some (int n))
unfolding get_option
found_int vm section name (v, e) = cast_int _ e

pub found_long :
    (vm : Variables) (section name : Text)
    → IsFound vm (section, name, is_long_int)
    → (n : ℤ) × (get_option is_long_int vm section name ≡ some (long_int n))
unfolding get_option
found_long vm section name (v, e) = cast_long _ e

pub found_bool :
    (vm : Variables) (section name : Text)
    → IsFound vm (section, name, is_bool)
    → (t : Bool) × (get_option is_bool vm section name ≡ some (bool t))
unfolding get_option
found_bool vm section name (v, e) = cast_bool _ e
