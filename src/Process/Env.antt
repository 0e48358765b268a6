-- ===== src/Process/Env.antt =====
-- internal/agent/model/task/process/env.go: the environment of a launched process. The text of an
-- entry is split at its first `=`. strings.ToUpper, which follows the tables of Unicode, is the
-- parameter `to_upper`; a nil slice is the empty list.
pub mod Filter
mod Tests
use Prim.Native.Char.{code}
use Prim.Native.String.{String}
use term_bridge.Prelude.{
  ℕ, Bool, true, false, ◌&&◌, ◌||◌, ◌==◌, eqb, if◌then◌else◌, Option, none, some, List, [], ◌∷◌,
}

-- The key of strings.Cut(entry, "="), or none where there is no `=`.
unfoldable pub cut_key : String → Option String
cut_key String.[] = none
cut_key (String.◌∷◌ c s) =
    let rest = cut_key s in
    if eqb (code c) 61 then some "" else elim rest [ none ↦ none | some k ↦ some (String.◌∷◌ c k) ]

module _ (to_upper : String → String) where
  unfoldable pub is_blocked_shell_option_key : String → Bool
  is_blocked_shell_option_key key = to_upper key == "SHELLOPTS" || to_upper key == "BASHOPTS"

  unfoldable pub is_blocked_entry : Option String → Bool
  unfolding is_blocked_shell_option_key
  is_blocked_entry none = false
  is_blocked_entry (some key) = is_blocked_shell_option_key key

  unfoldable pub sanitize_launch_env : List String → List String
  unfolding is_blocked_entry cut_key
  sanitize_launch_env [] = []
  sanitize_launch_env (e ∷ env) =
      let rest = sanitize_launch_env env in if is_blocked_entry (cut_key e) then rest else e ∷ rest
