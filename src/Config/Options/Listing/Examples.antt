-- ===== src/Config/Options/Listing/Examples.antt =====
-- The first lines for a file that sets the port of the database.
use one_fass.Base.{pos, none, some, ◌++◌, ◌≡◌, refl, length, take, if◌then◌else◌}
use one_fass.Text.{Text, codes, eq_text}
use one_fass.Config.Options.{int, Parsed}
use one_fass.Config.Options.Listing.{print_loaded_options}

abbrev file : Parsed
file name = if eq_text name (codes "database.port") then some (int (pos 9)) else none

abbrev head : Text
head =
    codes "Reading configuration...\n> database.endpoint(default)=localhost\n"
    ++ codes
        "> database.name(default)=fassdb\n> database.port=9\n> database.type(default)=influxdb\n"

listing_test : take (length head) (print_loaded_options file) ≡ head
unfolding one_fass.StdMap.insert one_fass.Config.Options.print_value one_fass.Text.Decimal.dec
listing_test = refl
