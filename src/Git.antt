-- ===== src/Git.antt =====
-- internal/agent/model/task/git/validation.go, and how
-- internal/agent/infrastructure/gitexec/repository.go takes paths of a repository to paths of a
-- workspace in it. filepath.Rel is an argument. Texts are valid UTF-8.
pub mod Paths
mod Tests
use Prim.Native.Char.{code}
use Prim.Native.String.{◌++◌, len, slice}
use text.Mathlib.Text.{starts_with}
use term_bridge.Prelude.{
  ℕ, String, Bool, true, false, not, ◌&&◌, ◌||◌, ◌==◌, ◌-◌, ltb, leb, eqb, if◌then◌else◌, Option,
  none, some, List, [], ◌∷◌, Result, ok, err,
}
use term_bridge.Prelude.Text.{trim_space, contains}
use term_bridge.File.{PathLib, PathError, parse_relative_path, split_slash, contains_rune}

abbrev pub max_commit_message_bytes : ℕ
max_commit_message_bytes = 16384

abbrev pub max_branch_name_bytes : ℕ
max_branch_name_bytes = 240

unfoldable pub validate_commit_message : String → Bool
unfolding trim_space contains_rune
validate_commit_message value =
    not
      (trim_space value == "" || ltb max_commit_message_bytes (len value) || contains_rune 0 value)

-- strings.HasSuffix
unfoldable pub ends_with : String → String → Bool
ends_with String.[] t = t == ""
ends_with (String.◌∷◌ c s) t = String.◌∷◌ c s == t || ends_with s t

-- strings.ContainsAny
unfoldable pub contains_any : String → String → Bool
unfolding contains_rune
contains_any String.[] set = false
contains_any (String.◌∷◌ c s) set = contains_rune (code c) set || contains_any s set

unfoldable pub good_segments : List String → Bool
unfolding ends_with
good_segments [] = true
good_segments (s ∷ ss) = not (s == "" || ends_with s ".lock") && good_segments ss

unfoldable pub has_control : String → Bool
has_control String.[] = false
has_control (String.◌∷◌ c s) = ltb (code c) 0x20 || eqb (code c) 0x7f || has_control s

unfoldable pub validate_branch_name : String → Bool
unfolding ends_with contains contains_any good_segments has_control split_slash
validate_branch_name value =
    not (
      value == ""
      || ltb max_branch_name_bytes (len value)
      || starts_with value "/"
      || ends_with value "/"
      || starts_with value "."
      || ends_with value "."
      || contains value ".."
      || contains value "@{"
      || contains_any value " ~^:?*[]\\")
    && good_segments (split_slash value)
    && not (has_control value)

pub record Change : Type 0 where
  pub path : String
  pub original_path : String
  pub index_status : String
  pub worktree_status : String
  pub untracked : Bool
  pub unmerged : Bool
  pub available_layers : List String

unfoldable pub is_rename_or_copy : Change → Bool
is_rename_or_copy c =
    c.index_status == "R"
    || c.index_status == "C"
    || c.worktree_status == "R"
    || c.worktree_status == "C"

unfoldable pub is_git_path : PathLib → String → Bool
unfolding parse_relative_path
is_git_path p value = elim (parse_relative_path p value false) [
  | err _ ↦ false
  | ok path ↦ path == value
]

-- filepath.Rel of the repository's root and the workspace's, none if it fails; whether a path is
-- absolute, the separator, and filepath.ToSlash.
pub record RelPaths : Type 0 where
  pub rel : Option String
  pub is_abs : String → Bool
  pub separator : String
  pub to_slash : String → String

abbrev pub prefix_of : RelPaths → String → Option String
prefix_of p relative =
    if relative == ".." || starts_with relative (".." ++ p.separator) || p.is_abs relative
    then none
    else if relative == "."
    then some ""
    else some (p.to_slash relative)

unfoldable pub workspace_prefix : RelPaths → Option String
workspace_prefix p = elim p.rel [ none ↦ none | some relative ↦ prefix_of p relative ]

-- strings.TrimPrefix, where the text has the prefix
unfoldable pub trim_prefix : String → String → String
trim_prefix value prefix = slice value (len prefix) (len value)

unfoldable pub workspace_relative_path : String → String → Option String
unfolding trim_prefix
workspace_relative_path value prefix =
    if prefix == ""
    then some value
    else if starts_with value (prefix ++ "/")
    then some (trim_prefix value (prefix ++ "/"))
    else none

unfoldable pub repository_path : String → String → String
repository_path prefix value = if prefix == "" then value else (prefix ++ "/") ++ value

-- The change seen from the workspace, if it and its original path are in it.
unfoldable pub restrict_change : Change → String → Option Change
unfolding workspace_relative_path
restrict_change c prefix = elim (workspace_relative_path c.path prefix) [
  | none ↦ none
  | some path ↦
      if c.original_path == ""
      then some (record c { path = path })
      else elim (workspace_relative_path c.original_path prefix) [
        | none ↦ none
        | some original ↦ some (record c { path = path; original_path = original })
      ]
]

unfoldable pub restrict_to_workspace : List Change → String → List Change
unfolding restrict_change
restrict_to_workspace [] prefix = []
restrict_to_workspace (c ∷ cs) prefix =
    let rest = restrict_to_workspace cs prefix in
    elim (restrict_change c prefix) [ none ↦ rest | some c' ↦ c' ∷ rest ]

unfoldable pub find_change : List Change → String → Option Change
find_change [] path = none
find_change (c ∷ cs) path =
    let rest = find_change cs path in if c.path == path then some c else rest
