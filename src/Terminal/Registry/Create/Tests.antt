-- ===== src/Terminal/Registry/Create/Tests.antt =====
-- A session is created in the workspace of its directory, on a machine where everything works.
use term_bridge.Prelude.{String, true, none, some, [], ◌∷◌, ◌≡◌, refl, Result, ok, err, pos}
use term_bridge.Process.Size.{new_spec}
use term_bridge.Session.Record.{Session}
use term_bridge.Store.Order.{sort_workspaces}
use term_bridge.Store.Disk.{Disk, find_workspace_by_path, list_workspaces, save_workspace}
use term_bridge.Store.Sessions.{save_session, save_state}
use term_bridge.Store.Example.{Page, json, healthy, session, disk}
use term_bridge.Terminal.Registry.{
  new_registry, started, claim_session_start, start_claimed_session_runtime, release_session_start,
}
use term_bridge.Terminal.Registry.Store.{json_store}
use term_bridge.Terminal.Registry.Create.{
  CreateSessionReq, CreateWorld, CreateConfig, CreateError, expand_home, new_session,
}
use term_bridge.Terminal.Registry.Create.Steps.{Created, create_session, launch}
use term_bridge.Terminal.Registry.Create.Claims.{IsCreate, create_session-IsCreate}

abbrev world : CreateWorld
world = record {
  paths = record {
    abs = λ s. some s;
    clean = λ s. s;
    join = λ a b. b;
    eval_symlinks = λ s. some s;
    separator = "/";
  };
  home = some "/root";
  is_dir = λ s. true;
  workspace_id = some "w2";
  session_id = some "s9";
  now = 70;
  env_count = pos 0;
  shortcuts = none;
  start = record {
    history_error = none;
    sanitized_env = [];
    pty = started none;
    save_error = none;
    now = 71;
  };
  store_text = λ e. "error";
}

abbrev config : CreateConfig
config = record { cwd = "/home"; history = (session "s9").history }

abbrev request : CreateSessionReq
request = record {
  name = " top ";
  command = "top" ∷ [];
  cwd = "";
  workspace_id = "";
  cols = pos 0;
  rows = pos 0;
  command_source = "";
  shortcut_id_snapshot = "";
  shortcut_name_snapshot = "";
}

abbrev created : Created (Disk Page)
created = create_session (json_store json healthy) config world new_registry disk request

create_session-IsCreate_example : IsCreate new_registry request created
create_session-IsCreate_example =
    create_session-IsCreate (json_store json healthy) world new_registry request config disk

abbrev name_of : Result CreateError Session → String
name_of (ok s) = s.name
name_of (err e) = ""

-- The session gets the trimmed name, and its runtime is registered.
created_running : (name_of created.result ≡ "top") × (created.registry.runtimes "s9" ≡ true)
unfolding create_session find_workspace_by_path list_workspaces sort_workspaces save_workspace
    save_session new_session claim_session_start new_registry launch start_claimed_session_runtime
    new_spec save_state release_session_start
created_running = (refl, refl)

-- A path below another user's home is refused.
other_home : expand_home world "~other" ≡ none
unfolding expand_home
other_home = refl

own_home : expand_home world "~/x" ≡ some "x"
unfolding expand_home
own_home = refl
