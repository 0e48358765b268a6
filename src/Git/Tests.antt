-- ===== src/Git/Tests.antt =====
-- Names and paths as git has them.
use term_bridge.Prelude.{String, true, false, some, ◌≡◌, refl, ◌↔◌}
use term_bridge.Git.{
  validate_branch_name, validate_commit_message, workspace_relative_path, repository_path,
}
use term_bridge.Git.Paths.{workspace_relative_path_iff}

abbrev full : String
full = "app/src/a"

workspace_relative_path_iff_example :
    (workspace_relative_path full "app" ≡ some "src/a") ↔ (full ≡ repository_path "app" "src/a")
workspace_relative_path_iff_example = workspace_relative_path_iff full "app" "src/a"

names :
    (validate_branch_name "feature/one" ≡ true)
    × (validate_branch_name "a..b" ≡ false)
    × (validate_branch_name "a.lock/b" ≡ false)
    × (validate_branch_name "a b" ≡ false)
unfolding validate_branch_name
names = (refl, refl, refl, refl)

blank_message : validate_commit_message " \n" ≡ false
unfolding validate_commit_message
blank_message = refl
