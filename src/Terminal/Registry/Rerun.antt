-- ===== src/Terminal/Registry/Rerun.antt =====
-- startSessionRuntime, RerunSession and what they use of
-- internal/agent/application/task/terminal/registry.go: a launch that holds the claim of its
-- session.
pub mod Claims
use Prim.Native.String.{◌++◌}
use term_bridge.Prelude.{
  ℕ, String, Bool, true, false, not, ◌||◌, ◌==◌, Option, none, some, if◌then◌else◌, Result, ok, err,
  List, [], ◌∷◌, ℤ,
}
use term_bridge.Prelude.Text.{trim_space, contains}
use term_bridge.Process.Size.{TerminalSize, or_default}
use term_bridge.Protocol.Terminal.{validate_size}
use term_bridge.Session.State.{StateRecord, schema_version, state_failed, terminal}
use term_bridge.Session.Record.{Session, View}
use term_bridge.Session.Errors.{
  SessionError, cannot_rerun_running, missing_command, invalid_cwd, invalid_size,
}
use term_bridge.Terminal.Registry.{
  Registry, StartWorld, StartError, history_not_created, pty_not_started, pty_usage,
  process_not_saved, state_not_saved, spec_not_built, Launch, claim_session_start,
  release_session_start, start_claimed_session_runtime,
}

-- The texts of the errors, as apperrors.Runtime joins them.
unfoldable pub start_error_text : StartError → String
start_error_text (history_not_created e) = "create history writer: " ++ e
start_error_text (pty_not_started e) = "start pty: " ++ e
start_error_text (pty_usage e) = e
start_error_text (process_not_saved e) = "save process state: " ++ e
start_error_text (state_not_saved e) = "save running state: " ++ e
start_error_text spec_not_built = "build process spec: missing command"

unfoldable pub start_failure_reason : String → String
start_failure_reason text =
    if contains text "create history writer"
    then "history_create_failed"
    else if contains text "build process spec"
    then "build_process_spec_failed"
    else if contains text "start pty"
    then "pty_start_failed"
    else if contains text "save process"
    then "save_process_failed"
    else if contains text "save running state"
    then "save_running_state_failed"
    else "runtime_start_failed"

-- What a rerun meets before the start: the stored view, whether the working directory is one,
-- whether the history was archived, and whether the run was begun in a store that can.
pub record RerunWorld : Type 0 where
  pub view : Result SessionError View
  pub is_dir : Bool
  pub archive_ok : Bool
  pub begin_ok : Option Bool
  pub start : StartWorld
  pub failed_at : ℕ

pub data RerunError : Type 0 where
  session_error : SessionError → RerunError
  archive_failed begin_failed : RerunError
  start_error : StartError → RerunError

-- What a launch leaves: the registry, the state that it has saved, and its outcome.
pub record Rerun : Type 0 where
  pub registry : Registry
  pub saved_state : Option StateRecord
  pub result : Result RerunError (Unit {0})

abbrev pub reject : Registry → RerunError → Rerun
reject r e = record { registry = r; saved_state = none; result = err e }

-- saveSessionFailed, whose own failure is only logged, and the error.
unfoldable pub save_session_failed : Registry → RerunWorld → String → RerunError → Rerun
save_session_failed r w reason e = record {
  registry = r;
  saved_state = some (record {
    schema_version = schema_version;
    state = state_failed;
    reason = reason;
    updated_at = w.failed_at;
  });
  result = err e;
}

unfoldable pub rerun_started : RerunWorld → Launch → Result StartError (Unit {0}) → Rerun
unfolding save_session_failed start_failure_reason start_error_text
rerun_started w l (err e) =
    save_session_failed l.registry w (start_failure_reason (start_error_text e)) (start_error e)
rerun_started w l (ok _) = record {
  registry = l.registry;
  saved_state = l.saved_state;
  result = ok tt;
}

abbrev pub is_refused : Option Bool → Bool
is_refused (some false) = true
is_refused _ = false

-- What runs under the claim.
unfoldable pub rerun_claimed : Registry → RerunWorld → View → TerminalSize → Rerun
unfolding save_session_failed rerun_started
rerun_claimed r w v size =
    let l = start_claimed_session_runtime r w.start v.session v.session.command.command size in
    if not w.archive_ok
    then save_session_failed r w "archive_history_failed" archive_failed
    else if is_refused w.begin_ok
    then save_session_failed r w "begin_session_run_failed" begin_failed
    else rerun_started w l l.result

-- The deferred release runs whatever the launch gives.
abbrev pub released_run : String → Rerun → Rerun
released_run id x = record x { registry = release_session_start x.registry id }

unfoldable pub rerun_claim :
    RerunWorld → View → TerminalSize → Registry × Result SessionError (Unit {0}) → Rerun
unfolding rerun_claimed
rerun_claim w v size (r, err e) = reject r (session_error e)
rerun_claim w v size (r, ok _) = released_run v.session.id (rerun_claimed r w v size)

unfoldable pub rerun_size : Registry → RerunWorld → View → TerminalSize → Rerun
unfolding rerun_claim
rerun_size r w v size = elim (validate_size size.cols size.rows) [
  | err _ ↦ reject r (session_error invalid_size)
  | ok _ ↦ rerun_claim w v size (claim_session_start r v.session.id)
]

unfoldable pub rerun_view : Registry → RerunWorld → TerminalSize → View → Rerun
unfolding save_session_failed rerun_size
rerun_view r w size v =
    if not (terminal v.state.state)
    then reject r (session_error cannot_rerun_running)
    else if trim_space v.session.command.command == ""
    then save_session_failed r w "missing_rerun_command" (session_error missing_command)
    else if trim_space v.session.launch_cwd == "" || not w.is_dir
    then save_session_failed r w "invalid_rerun_cwd" (session_error invalid_cwd)
    else rerun_size r w v (or_default size)

unfoldable pub rerun_loaded :
    Registry → RerunWorld → TerminalSize → Result SessionError View → Rerun
unfolding rerun_view
rerun_loaded r w size (err e) = reject r (session_error e)
rerun_loaded r w size (ok v) = rerun_view r w size v

unfoldable pub rerun_session : Registry → RerunWorld → TerminalSize → Rerun
unfolding rerun_loaded
rerun_session r w size = rerun_loaded r w size w.view

-- startSessionRuntime, with the result of the claim.
unfoldable pub start_with_claim :
    StartWorld
    → Session
    → String
    → TerminalSize
    → Registry × Result SessionError (Unit {0})
    → Registry × Result RerunError (Unit {0})
start_with_claim w s command size (r, err e) = (r, err (session_error e))
start_with_claim w s command size (r, ok _) =
    let l = start_claimed_session_runtime r w s command size in
    (
      release_session_start l.registry s.id,
      elim l.result [ err e ↦ err (start_error e) | ok _ ↦ ok tt ],
    )

unfoldable pub start_session_runtime :
    Registry
    → StartWorld
    → Session
    → String
    → TerminalSize
    → Registry × Result RerunError (Unit {0})
unfolding start_with_claim
start_session_runtime r w s command size =
    start_with_claim w s command size (claim_session_start r s.id)
