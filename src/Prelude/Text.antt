-- ===== src/Prelude/Text.antt =====
-- The parts of Go's `strings` package that the source uses, on texts.
use Prim.Native.Nat.{ℕ}
use Prim.Native.Char.{code}
use Prim.Native.String.{String}
use mathlib.Core.Bool.{Bool, false, ◌&&◌, ◌||◌}
use mathlib.Core.Path.{◌≡◌}
use mathlib.Core.List.{List, [], ◌∷◌, ◌++◌}
use native.Mathlib.Omega.{arith}
use text.Mathlib.Text.{◌==◌, starts_with}
use term_bridge.Prelude.Tests.{leb, eqb, if◌then◌else◌}

-- unicode.IsSpace
abbrev pub is_space : ℕ → Bool
is_space c =
    (leb 9 c && leb c 13)
    || eqb c 32
    || eqb c 0x85
    || eqb c 0xa0
    || eqb c 0x1680
    || (leb 0x2000 c && leb c 0x200a)
    || eqb c 0x2028
    || eqb c 0x2029
    || eqb c 0x202f
    || eqb c 0x205f
    || eqb c 0x3000

trim_left : String → String
trim_left String.[] = ""
trim_left (String.◌∷◌ c s) = if is_space (code c) then trim_left s else String.◌∷◌ c s

trim_right : String → String
trim_right String.[] = ""
trim_right (String.◌∷◌ c s) =
    let r = trim_right s in if is_space (code c) && r == "" then "" else String.◌∷◌ c r

-- strings.TrimSpace
unfoldable pub trim_space : String → String
unfolding trim_left trim_right
trim_space s = trim_right (trim_left s)

-- strings.Contains
unfoldable pub contains : String → String → Bool
contains String.[] t = t == ""
contains (String.◌∷◌ c s) t = starts_with (String.◌∷◌ c s) t || contains s t

-- Membership of a text in a list.
unfoldable pub contains_text : List String → String → Bool
contains_text [] t = false
contains_text (s ∷ ss) t = s == t || contains_text ss t

-- Membership in a list with an item behind it.
pub contains-append :
    (xs : List String) (y t : String)
    → contains_text (xs ++ y ∷ []) t ≡ contains_text xs t || y == t
unfolding contains_text
contains-append [] y t = ground arith
contains-append (x ∷ xs) y t = ground (arith, contains-append xs y t)
