-- ===== src/Process/Env/Filter.antt =====
-- Which entries of an environment are passed on.
use term_bridge.Prelude.{String, true, not, ◌&&◌, ◌==◌, eq_iff, ◌≡◌, refl, ap, List, [], ◌∷◌, arith}
use term_bridge.Prelude.Text.{contains_text}
use term_bridge.Process.Env.{cut_key, is_blocked_entry, sanitize_launch_env}

module _ (to_upper : String → String) where
  same_entry :
      (e x : String)
      → (e == x) ≡ true
      → is_blocked_entry to_upper (cut_key e) ≡ is_blocked_entry to_upper (cut_key x)
  same_entry e x h = ap (λ s. is_blocked_entry to_upper (cut_key s)) ((eq_iff e x).0 h)

  -- SanitizeLaunchEnv passes on exactly the entries that do not set a blocked option of the shell.
  pub contains-sanitize_launch_env :
      (env : List String) (x : String)
      → contains_text (sanitize_launch_env to_upper env) x
        ≡ contains_text env x && not (is_blocked_entry to_upper (cut_key x))
  unfolding sanitize_launch_env contains_text
  contains-sanitize_launch_env [] x = refl
  contains-sanitize_launch_env (e ∷ env) x =
      ground (arith, contains-sanitize_launch_env env x, same_entry e x)
