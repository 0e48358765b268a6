-- ===== src/File.antt =====
-- internal/agent/model/task/file/path.go: relative paths of workspace files. A RelativePath is its
-- text. The functions of Go's package path are arguments.
pub mod Safety
mod Tests
use Prim.Native.String.{◌++◌}
use Prim.Native.Char.{code}
use text.Mathlib.Text.{starts_with}
use term_bridge.Prelude.{
  ℕ, String, Bool, true, false, not, ◌&&◌, ◌||◌, ◌==◌, eqb, if◌then◌else◌, List, [], ◌∷◌, Result,
  ok, err, ◌>>=◌, ◌>>◌, fail_if,
}
use term_bridge.Prelude.Text.{contains}

-- InvalidPath, with each message that the parsers give it.
pub data PathError : Type 0 where
  is_required not_relative has_volume not_canonical invalid_segment not_one_segment : PathError

pub record PathLib : Type 0 where
  pub clean : String → String
  pub dir : String → String
  pub base : String → String

-- strings.ContainsRune
unfoldable pub contains_rune : ℕ → String → Bool
contains_rune r String.[] = false
contains_rune r (String.◌∷◌ c s) = eqb (code c) r || contains_rune r s

abbrev pub with_head : String → List String → List String
with_head c [] = c ∷ []
with_head c (s ∷ ss) = (c ++ s) ∷ ss

-- strings.Split(_, "/"), where 47 is the slash.
unfoldable pub split_slash : String → List String
split_slash String.[] = "" ∷ []
split_slash (String.◌∷◌ c s) =
    let rest = split_slash s in
    if eqb (code c) 47 then "" ∷ rest else with_head (String.◌∷◌ c "") rest

unfoldable pub check_segments : List String → Result PathError (Unit {0})
check_segments [] = ok tt
check_segments (s ∷ ss) =
    let rest = check_segments ss in
    if s == "" || s == "." || s == ".." then err invalid_segment else rest

unfoldable pub check_text : PathLib → String → Result PathError (Unit {0})
unfolding contains_rune split_slash check_segments contains
check_text p value = do
  fail_if (contains_rune 0 value || contains value "\\" || starts_with value "/") not_relative
  fail_if (contains value ":" || starts_with value "//") has_volume
  fail_if (not (p.clean value == value)) not_canonical
  check_segments (split_slash value)

unfoldable pub parse_relative_path : PathLib → String → Bool → Result PathError String
unfolding check_text
parse_relative_path p value allow_root =
    if value == ""
    then if allow_root then ok "" else err is_required
    else (do check_text p value; ok value)

abbrev pub one_segment : String → Result PathError String
one_segment parsed = if contains parsed "/" then err not_one_segment else ok parsed

unfoldable pub parse_name : PathLib → String → Result PathError String
unfolding parse_relative_path contains
parse_name p value = do parsed ← parse_relative_path p value false; one_segment parsed

unfoldable pub parent : PathLib → String → String
unfolding contains
parent p value = if value == "" || not (contains value "/") then "" else p.dir value

unfoldable pub base : PathLib → String → String
base p value = if value == "" then "" else p.base value

unfoldable pub is_within : String → String → Bool
is_within path prefix =
    if prefix == "" then not (path == "") else path == prefix || starts_with path (prefix ++ "/")
