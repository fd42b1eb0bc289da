-- ===== src/Config/Options/Listing.antt =====
-- `print_loaded_options` of src/config/FassConfigurator.cc: the options in the order of a `std::map`. No value
-- is empty, since each option has a default.
mod Examples
use one_fass.Base.{Bool, true, false, Option, none, some, List, [], ◌∷◌, ◌++◌, ltb, if◌then◌else◌}
use one_fass.Text.{Text, codes}
use one_fass.StdMap.{Map, insert}
use one_fass.Config.Options.{Any, Parsed, options, or_default, print_value}

-- The order of `std::string`.
abbrev pub lt_text : Text → Text → Bool
lt_text [] [] = false
lt_text [] (d ∷ t) = true
lt_text (c ∷ s) [] = false
lt_text (c ∷ s) (d ∷ t) =
    let rest = lt_text s t in if ltb c d then true else if ltb d c then false else rest

abbrev pub is_defaulted : Option Any → Bool
is_defaulted none = true
is_defaulted (some v) = false

abbrev value_of : Option Any → Any → Any
value_of none def = def
value_of (some v) def = v

-- The variables: each option with its value, and whether that is the default.
abbrev pub variables : Parsed → List (Text × Any) → Map Text (Any × Bool) → Map Text (Any × Bool)
variables file [] vm = vm
variables file ((name, def) ∷ more) vm =
    variables file more
      (insert lt_text name (value_of (file name) def, is_defaulted (file name)) vm)

abbrev pub print_variable : Text × (Any × Bool) → Text
print_variable (name, (v, defaulted)) =
    codes "> "
    ++ (name
        ++ ((if defaulted then codes "(default)" else [])
            ++ (codes "=" ++ (print_value v ++ codes "\n"))))

abbrev print_variables : Map Text (Any × Bool) → Text
print_variables [] = []
print_variables (e ∷ vm) = print_variable e ++ print_variables vm

abbrev pub print_loaded_options : Parsed → Text
print_loaded_options file =
    codes "Reading configuration...\n" ++ print_variables (variables file options [])
