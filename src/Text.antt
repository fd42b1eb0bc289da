-- ===== src/Text.antt =====
-- `std::string` as the list of its bytes, with the operations that the program calls: positions are
-- `size_t`, and `none` is the exception `out_of_range`.
pub mod Find
pub mod Split
pub mod Decimal
pub mod Reading
use Prim.Native.Char.{code}
use Prim.Native.String.{String}
use one_fass.Base.{
  ℕ, zero, suc, ◌+◌, ◌-◌, ◌^◌, ◌%◌, Bool, true, false, ◌&&◌, Option, none, some, List, [], ◌∷◌,
  ◌++◌, ◌==◌, ltb, length, take, drop, if◌then◌else◌,
}

abbrev pub Text : Type 0
Text = List ℕ

-- The bytes of a literal.
abbrev pub codes : String → Text
codes String.[] = []
codes (String.◌∷◌ c s) = code c ∷ codes s

abbrev pub eq_text : Text → Text → Bool
eq_text [] [] = true
eq_text [] (d ∷ t) = false
eq_text (c ∷ s) [] = false
eq_text (c ∷ s) (d ∷ t) = c == d && eq_text s t

-- `size_t` arithmetic wraps; `npos` is its largest value.
abbrev pub size_mod : ℕ
size_mod = 2 ^ 64

abbrev pub npos : ℕ
npos = 2 ^ 64 - 1

abbrev pub is_prefix : Text → Text → Bool
is_prefix [] s = true
is_prefix (p ∷ ps) [] = false
is_prefix (p ∷ ps) (c ∷ s) = p == c && is_prefix ps s

-- The first position at which the pattern stands.
abbrev shift : Option ℕ → Option ℕ
shift none = none
shift (some i) = some (suc i)

unfoldable pub find? : Text → Text → Option ℕ
find? p [] = if is_prefix p [] then some 0 else none
find? p (c ∷ s) = let rest = shift (find? p s) in if is_prefix p (c ∷ s) then some 0 else rest

abbrev pub or_npos : Option ℕ → ℕ
or_npos none = npos
or_npos (some i) = i

-- `s.find(p)`
abbrev pub find : Text → Text → ℕ
find p s = or_npos (find? p s)

-- `s.erase(start, count)`
unfoldable pub erase : ℕ → ℕ → Text → Option Text
erase start count s =
    if ltb (length s) start then none else some (take start s ++ drop count (drop start s))

-- `s.insert(start, t)`
unfoldable pub insert : ℕ → Text → Text → Option Text
insert start t s = if ltb (length s) start then none else some (take start s ++ (t ++ drop start s))
