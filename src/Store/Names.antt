-- ===== src/Store/Names.antt =====
-- internal/agent/model/task/workspace/key.go: the path and the name of a workspace. The functions of
-- path/filepath are arguments.
use Prim.Native.Char.{code}
use term_bridge.Prelude.{
  ℕ, String, Bool, false, ◌&&◌, ◌||◌, ◌==◌, eqb, if◌then◌else◌, Option, none, some,
}

pub record Paths : Type 0 where
  pub abs : String → Option String
  pub clean : String → String
  pub join : String → String → String
  pub eval_symlinks : String → Option String
  pub separator : String

unfoldable pub normalize_path : Paths → String → Option String
normalize_path p path = elim (p.abs path) [ none ↦ none | some a ↦ some (p.clean a) ]

-- The slash and the backslash.
abbrev pub is_separator : ℕ → Bool
is_separator c = eqb c 47 || eqb c 92

unfoldable pub has_separator : String → Bool
has_separator String.[] = false
has_separator (String.◌∷◌ c s) = is_separator (code c) || has_separator s

-- strings.TrimRight with the separators
unfoldable pub trim_separators : String → String
trim_separators String.[] = ""
trim_separators (String.◌∷◌ c s) =
    let r = trim_separators s in if is_separator (code c) && r == "" then "" else String.◌∷◌ c r

-- The text behind the last separator, or all of it.
unfoldable pub after_separator : String → String
unfolding has_separator
after_separator String.[] = ""
after_separator (String.◌∷◌ c s) =
    let rest = after_separator s in
    if has_separator s then rest else if is_separator (code c) then s else String.◌∷◌ c s

unfoldable pub last_path_segment : String → String
unfolding trim_separators after_separator
last_path_segment path = after_separator (trim_separators path)

unfoldable pub name_for_path : Paths → String → String
unfolding last_path_segment
name_for_path p path =
    let name = last_path_segment (p.clean path) in
    if name == "." || name == p.separator || name == "" then "workspace" else name
