-- ===== src/Terminal/Registry/Create.antt =====
-- CreateSession of internal/agent/application/task/terminal/registry.go with
-- workspaceForCreateSession, resolveSessionCwd and expandHome; Resolver.Resolve of
-- internal/agent/application/task/workspace/resolver.go; and Manager.Create of
-- internal/agent/application/task/session/manager.go. They run over any store.
pub mod Steps
pub mod Claims
mod Tests
use text.Mathlib.Text.{starts_with}
use term_bridge.Prelude.{
  ℕ, String, Bool, true, false, not, ◌&&◌, ◌||◌, ◌==◌, if◌then◌else◌, Option, none, some, List, [],
  ◌∷◌, Result, ok, err, ◌>>=◌, ◌>>◌, fail_if, ℤ,
}
use term_bridge.Prelude.Text.{trim_space}
use term_bridge.Process.Size.{TerminalSize, or_default}
use term_bridge.Protocol.Terminal.{validate_size}
use term_bridge.Session.State.{schema_version}
use term_bridge.Session.Record.{Session, CommandRecord, HistoryRecord, valid_source}
use term_bridge.Session.Errors.{
  workspace_not_found, missing_name, missing_command, invalid_command_shape, invalid_command_source,
  invalid_size, invalid_cwd,
}
use term_bridge.Shortcut.{Shortcut, validate_shortcut_command}
use term_bridge.Store.Names.{Paths, normalize_path, name_for_path}
use term_bridge.Store.Node.{Workspace, workspace_schema_version}
use term_bridge.Store.Disk.{StoreError}
use term_bridge.Terminal.Registry.{
  Registry, StartWorld, StartError, Launch, claim_session_start, release_session_start,
  start_claimed_session_runtime,
}
use term_bridge.Terminal.Registry.Rerun.{start_failure_reason, start_error_text}
use term_bridge.Terminal.Registry.Store.{RuntimeStore}
use term_bridge.Terminal.Registry.Requests.{
  RegistryError, session_error, runtime, is_not_exist, load_error, or_shortcut,
}

pub record CreateSessionReq : Type 0 where
  pub name : String
  pub command : List String
  pub cwd : String
  pub workspace_id : String
  pub cols : ℤ
  pub rows : ℤ
  pub command_source : String
  pub shortcut_id_snapshot : String
  pub shortcut_name_snapshot : String

-- What a creation meets outside: paths, the home directory, which paths are directories, new ids,
-- the clock, what the shortcut store lists, and the start of the process.
pub record CreateWorld : Type 0 where
  pub paths : Paths
  pub home : Option String
  pub is_dir : String → Bool
  pub workspace_id : Option String
  pub session_id : Option String
  pub now : ℕ
  pub env_count : ℤ
  pub shortcuts : Option (List Shortcut)
  pub start : StartWorld
  pub store_text : StoreError → String

-- The registry's own settings that a creation reads.
pub record CreateConfig : Type 0 where
  pub cwd : String
  pub history : HistoryRecord

pub data CreateError : Type 0 where
  rejected : RegistryError → CreateError
  no_path no_id : CreateError
  not_started : StartError → CreateError

abbrev pub or_home : Option String → (String → String) → Option String
or_home none f = none
or_home (some home) f = some (f home)

-- path[2:], where the path has two bytes
unfoldable pub behind_tilde : String → String
behind_tilde String.[] = ""
behind_tilde (String.◌∷◌ c String.[]) = ""
behind_tilde (String.◌∷◌ c (String.◌∷◌ d s)) = s

unfoldable pub expand_home : CreateWorld → String → Option String
unfolding behind_tilde
expand_home w path =
    if path == "~"
    then w.home
    else if starts_with path "~/" || starts_with path "~\\"
    then or_home w.home (λ home. w.paths.join home (behind_tilde path))
    else if starts_with path "~"
    then none
    else some path

abbrev pub and_then : Option String → (String → Option String) → Option String
and_then none f = none
and_then (some s) f = f s

unfoldable pub resolve_session_cwd : CreateWorld → String → Option String
unfolding expand_home
resolve_session_cwd w path = and_then (expand_home w path) (λ expanded.
    and_then (w.paths.abs expanded)
      (λ a. and_then (w.paths.eval_symlinks a) (λ resolved. some (w.paths.clean resolved))))

-- The checks before the store is asked, with the working directory and the command's text.
abbrev pub only_command : List String → Result CreateError String
only_command (text ∷ []) =
    if trim_space text == "" then err (rejected (session_error missing_command)) else ok text
only_command _ = err (rejected (session_error invalid_command_shape))

abbrev pub dir_or : CreateWorld → Option String → Result CreateError String
dir_or w none = err (rejected (session_error invalid_cwd))
dir_or w (some cwd) = if w.is_dir cwd then ok cwd else err (rejected (session_error invalid_cwd))

abbrev pub checked_size : TerminalSize → Result CreateError (Unit {0})
checked_size size = elim (validate_size size.cols size.rows) [
  | err _ ↦ err (rejected (session_error invalid_size))
  | ok _ ↦ ok tt
]

abbrev pub requested_size : CreateSessionReq → TerminalSize
requested_size q = or_default (record { cols = q.cols; rows = q.rows })

unfoldable pub check_create :
    CreateConfig → CreateWorld → CreateSessionReq → Result CreateError (String × String)
unfolding resolve_session_cwd trim_space validate_size or_default
check_create c w q = do
  fail_if (trim_space q.name == "") (rejected (session_error missing_name))
  text ← only_command q.command
  cwd ← dir_or w (resolve_session_cwd w (if trim_space q.cwd == "" then c.cwd else q.cwd))
  checked_size (requested_size q)
  ok (text, cwd)

unfoldable pub create_command : CreateWorld → CreateSessionReq → String → CommandRecord
create_command w q text = record {
  command = text;
  env_strategy = "inherit";
  env_count = w.env_count;
  source = q.command_source;
  shortcut_id_snapshot = q.shortcut_id_snapshot;
  shortcut_name_snapshot = q.shortcut_name_snapshot;
}

abbrev pub or_rejected {ℓ} : {A : Type ℓ} → Result RegistryError A → Result CreateError A
or_rejected (err e) = err (rejected e)
or_rejected (ok a) = ok a

unfoldable pub check_command : CreateWorld → CommandRecord → Result CreateError (Unit {0})
unfolding valid_source validate_shortcut_command
check_command w c = do
  fail_if (not (valid_source c)) (rejected (session_error invalid_command_source))
  or_rejected (or_shortcut (validate_shortcut_command w.shortcuts c))

unfoldable pub new_workspace : CreateWorld → String → String → Workspace
unfolding name_for_path
new_workspace w id path = record {
  schema_version = workspace_schema_version;
  id = id;
  name = name_for_path w.paths path;
  path = path;
  session_ids = [];
  children = [];
  created_at = w.now;
  updated_at = w.now;
}

unfoldable pub new_session :
    CreateConfig → CreateWorld → String → Workspace → String → String → CommandRecord → Session
new_session c w id ws name cwd command = record {
  schema_version = schema_version;
  id = id;
  name = name;
  workspace_id = ws.id;
  launch_cwd = cwd;
  command = command;
  history = record c.history { path = "history.log"; truncated = false };
  created_at = w.now;
  updated_at = w.now;
}
