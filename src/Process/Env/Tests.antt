-- ===== src/Process/Env/Tests.antt =====
-- An environment with an option of the parent's shell.
use term_bridge.Prelude.{String, ◌≡◌, refl, List, [], ◌∷◌}
use term_bridge.Process.Env.{sanitize_launch_env}

abbrev env : List String
env = "HOME=/home" ∷ "SHELLOPTS=errexit" ∷ "TERM=xterm" ∷ []

kept : sanitize_launch_env (λ s. s) env ≡ "HOME=/home" ∷ "TERM=xterm" ∷ []
unfolding sanitize_launch_env
kept = refl
