-- ===== src/Terminal/Registry.antt =====
-- Registry in internal/agent/application/task/terminal/registry.go: which sessions have a runtime,
-- and how the runtime of a stored session is started. The maps of runtimes and of launches are
-- functions from ids, where a missing key reads as false. What the file system, the PTY manager and
-- the store answer are arguments; an error of theirs is its text.
pub mod Processes
pub mod Starts
pub mod Rerun
pub mod Store
pub mod Requests
pub mod Manage
pub mod Create
pub mod Archive
pub mod Views
mod Tests
use term_bridge.Prelude.{
  ℕ, String, Bool, true, false, not, ◌||◌, ◌==◌, eqb, Option, none, some, if◌then◌else◌, Result, ok,
  err, List, ◌>>=◌, ◌>>◌, fail_if, pos, lt_int, ℤ, ◌*◌,
}
use term_bridge.Prelude.Text.{trim_space, contains}
use term_bridge.Process.Size.{TerminalSize, ProcessSpec, SpecError, new_spec, or_default}
use term_bridge.Protocol.Terminal.{validate_size}
use term_bridge.Session.State.{StateRecord, schema_version, state_running, state_failed, terminal}
use term_bridge.Session.Record.{Session, View, ProcessRecord}
use term_bridge.Session.Errors.{
  SessionError, already_running, cannot_rerun_running, missing_command, invalid_cwd, invalid_size,
}

pub record Registry : Type 0 where
  pub runtimes : String → Bool
  pub launching : String → Bool

unfoldable pub new_registry : Registry
new_registry = record { runtimes = λ id. false; launching = λ id. false }

-- A key of a map is set to true, or deleted.
unfoldable pub set_key : (String → Bool) → String → Bool → String → Bool
set_key keys id b s = if s == id then b else keys s

unfoldable pub claim_session_start : Registry → String → Registry × Result SessionError (Unit {0})
unfolding set_key
claim_session_start r id =
    if r.runtimes id || r.launching id
    then (r, err already_running)
    else (record r { launching = set_key r.launching id true }, ok tt)

unfoldable pub release_session_start : Registry → String → Registry
unfolding set_key
release_session_start r id = record r { launching = set_key r.launching id false }

-- The assignment to r.runtimes at the end of startClaimedSessionRuntime.
unfoldable pub add_runtime : Registry → String → Registry
unfolding set_key
add_runtime r id = record r { runtimes = set_key r.runtimes id true }

unfoldable pub remove_runtime : Registry → String → Registry
unfolding set_key
remove_runtime r id = record r { runtimes = set_key r.runtimes id false }

abbrev pub has_runtime : Registry → String → Bool
has_runtime r id = r.runtimes id

-- What the manager's Start gives: an error, which may be of the kind "usage", or a PTY, which may
-- report its process.
pub data PtyStart : Type 0 where
  start_failed : Bool → String → PtyStart
  started : Option ProcessRecord → PtyStart

-- What a start meets outside. A time of 0 is the zero time.
pub record StartWorld : Type 0 where
  pub history_error : Option String
  pub sanitized_env : List String
  pub pty : PtyStart
  pub save_error : Option String
  pub now : ℕ

pub data StartError : Type 0 where
  history_not_created pty_not_started pty_usage process_not_saved state_not_saved :
      String → StartError
  spec_not_built : StartError

-- What a start leaves: the registry, what it has saved, and whether its PTY and its history are
-- still open.
pub record Launch : Type 0 where
  pub registry : Registry
  pub saved_process : Option ProcessRecord
  pub saved_state : Option StateRecord
  pub pty_open : Bool
  pub history_open : Bool
  pub result : Result StartError (Unit {0})

abbrev pub refused : Registry → StartError → Launch
refused r e = record {
  registry = r;
  saved_process = none;
  saved_state = none;
  pty_open = false;
  history_open = false;
  result = err e;
}

-- The record of the process, with the gaps that the reporter leaves filled in.
unfoldable pub fill_record : StartWorld → ProcessSpec → ProcessRecord → ProcessRecord
fill_record w spec p = record p {
  command_line = if p.command_line == "" then spec.command_text else p.command_line;
  cwd = if p.cwd == "" then spec.cwd else p.cwd;
  started_at = if eqb p.started_at 0 then w.now else p.started_at;
}

abbrev pub running_record : ℕ → StateRecord
running_record at_time = record {
  schema_version = schema_version;
  state = state_running;
  reason = "process_started";
  updated_at = at_time;
}

-- SaveProcessState and SaveState write all or nothing.
unfoldable pub start_save :
    Registry → String → Option ProcessRecord → StateRecord → Option String → Launch
unfolding add_runtime
start_save r id (some p) s (some e) = refused r (process_not_saved e)
start_save r id none s (some e) = refused r (state_not_saved e)
start_save r id p s none = record {
  registry = add_runtime r id;
  saved_process = p;
  saved_state = some s;
  pty_open = true;
  history_open = true;
  result = ok tt;
}

unfoldable pub start_pty : Registry → StartWorld → String → ProcessSpec → PtyStart → Launch
unfolding start_save fill_record
start_pty r w id spec (start_failed usage e) =
    if usage then refused r (pty_usage e) else refused r (pty_not_started e)
start_pty r w id spec (started none) = start_save r id none (running_record w.now) w.save_error
start_pty r w id spec (started (some p)) =
    let filled = fill_record w spec p in
    start_save r id (some filled) (running_record filled.started_at) w.save_error

unfoldable pub start_spec : Registry → StartWorld → String → Result SpecError ProcessSpec → Launch
unfolding start_pty
start_spec r w id (err e) = refused r spec_not_built
start_spec r w id (ok spec) = start_pty r w id spec w.pty

unfoldable pub start_history :
    Registry → StartWorld → Session → String → TerminalSize → Option String → Launch
unfolding start_spec
start_history r w s command size (some e) = refused r (history_not_created e)
start_history r w s command size none =
    start_spec r w s.id (new_spec w.sanitized_env s.launch_cwd command size)

unfoldable pub start_claimed_session_runtime :
    Registry → StartWorld → Session → String → TerminalSize → Launch
unfolding start_history
start_claimed_session_runtime r w s command size = start_history r w s command size w.history_error
