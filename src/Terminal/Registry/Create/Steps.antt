-- ===== src/Terminal/Registry/Create/Steps.antt =====
-- The steps of CreateSession of registry.go that change the store or the registry: the workspace, the
-- session, and the start of its process. The answers of the store to what the start saves are those
-- that the start meets.
use term_bridge.Prelude.{ℕ, String, not, ◌==◌, if◌then◌else◌, Option, none, some, Result, ok, err}
use term_bridge.Prelude.Text.{trim_space}
use term_bridge.Process.Size.{TerminalSize}
use term_bridge.Session.State.{StateRecord, schema_version, state_failed}
use term_bridge.Session.Record.{Session, CommandRecord, ProcessRecord}
use term_bridge.Session.Errors.{SessionError, message}
use term_bridge.Store.Names.{normalize_path}
use term_bridge.Store.Node.{Workspace}
use term_bridge.Store.Disk.{StoreError}
use term_bridge.Terminal.Registry.{
  Registry, StartWorld, StartError, Launch, claim_session_start, release_session_start,
  start_claimed_session_runtime,
}
use term_bridge.Terminal.Registry.Rerun.{start_failure_reason, start_error_text}
use term_bridge.Terminal.Registry.Store.{RuntimeStore}
use term_bridge.Terminal.Registry.Requests.{session_error, runtime, is_not_exist, load_error}
use term_bridge.Terminal.Registry.Create.{
  CreateSessionReq, CreateWorld, CreateConfig, CreateError, rejected, no_path, no_id, not_started,
  requested_size, check_create, create_command, check_command, new_workspace, new_session,
}

-- What a creation leaves.
pub record Created (D : Type 0) : Type 0 where
  pub store : D
  pub registry : Registry
  pub result : Result CreateError Session

module _ {D : Type 0} (store : RuntimeStore D) where
  abbrev pub saved_workspace :
      Workspace → D × Result StoreError (Unit {0}) → D × Result CreateError Workspace
  saved_workspace ws (d, err e) = (d, err (rejected (runtime e)))
  saved_workspace ws (d, ok _) = (d, ok ws)

  abbrev pub add_workspace :
      CreateWorld → D → String → Option String → D × Result CreateError Workspace
  add_workspace w d path none = (d, err no_id)
  add_workspace w d path (some id) =
      saved_workspace (new_workspace w id path) (store.save_workspace d (new_workspace w id path))

  abbrev pub found_workspace :
      CreateWorld → D → String → Result StoreError Workspace → D × Result CreateError Workspace
  found_workspace w d path (ok ws) =
      let touched = record ws { updated_at = w.now } in
      saved_workspace touched (store.save_workspace d touched)
  found_workspace w d path (err e) =
      if not (is_not_exist e)
      then (d, err (rejected (runtime e)))
      else add_workspace w d path w.workspace_id

  abbrev pub resolve_path : CreateWorld → D → Option String → D × Result CreateError Workspace
  resolve_path w d none = (d, err no_path)
  resolve_path w d (some path) = found_workspace w d path (store.find_workspace_by_path d path)

  -- Resolver.Resolve
  unfoldable pub resolve : CreateWorld → D → String → D × Result CreateError Workspace
  unfolding normalize_path
  resolve w d cwd = resolve_path w d (normalize_path w.paths cwd)

  abbrev pub loaded_workspace : D → Result StoreError Workspace → D × Result CreateError Workspace
  loaded_workspace d (err e) = (d, err (rejected (load_error e)))
  loaded_workspace d (ok ws) = (d, ok ws)

  unfoldable pub workspace_for_create_session :
      CreateWorld → D → String → String → D × Result CreateError Workspace
  unfolding resolve trim_space
  workspace_for_create_session w d id cwd =
      if not (trim_space id == "")
      then loaded_workspace d (store.load_workspace d id)
      else resolve w d cwd

  abbrev pub saved_session :
      Session → D × Result StoreError (Unit {0}) → D × Result CreateError Session
  saved_session s (d, err e) = (d, err (rejected (runtime e)))
  saved_session s (d, ok _) = (d, ok s)

  -- Manager.Create
  abbrev pub create_saved :
      CreateConfig
      → CreateWorld
      → D
      → Workspace
      → String
      → String
      → CommandRecord
      → Option String
      → D × Result CreateError Session
  create_saved c w d ws name cwd command none = (d, err no_id)
  create_saved c w d ws name cwd command (some id) =
      let s = new_session c w id ws name cwd command in saved_session s (store.save_session d s)

  -- What the start saves, in the store.
  abbrev pub save_started :
      D → ℕ → Session → Option ProcessRecord → StateRecord → D × Result StoreError (Unit {0})
  save_started d now s none state = store.save_state d s.workspace_id s.id state
  save_started d now s (some p) state = store.save_process_state d now s.workspace_id s.id p state

  abbrev pub refused_save : CreateWorld → Result StoreError (Unit {0}) → StartWorld
  refused_save w (ok _) = record w.start { save_error = none }
  refused_save w (err e) = record w.start { save_error = some (w.store_text e) }

  abbrev pub saved_launch :
      CreateWorld → Registry → D → Session → TerminalSize → Launch → Option StateRecord → D × Launch
  saved_launch w r d s size l none = (d, l)
  saved_launch w r d s size l (some state) =
      let (d', answer) = save_started d w.now s l.saved_process state in
      (d', start_claimed_session_runtime r (refused_save w answer) s s.command.command size)

  -- startClaimedSessionRuntime, where the store answers what it saves. `l` is the start as it goes if
  -- the store accepts.
  unfoldable pub launch : CreateWorld → Registry → D → Session → TerminalSize → D × Launch
  launch w r d s size =
      let l =
        start_claimed_session_runtime r (record w.start { save_error = none }) s s.command.command
          size in
      saved_launch w r d s size l l.saved_state

  -- saveSessionFailed, whose own failure is only logged.
  abbrev pub failed : CreateWorld → D → Registry → Session → String → CreateError → Created D
  failed w d r s reason e =
      let state : StateRecord = record {
        schema_version = schema_version;
        state = state_failed;
        reason = reason;
        updated_at = w.now;
      } in
      record {
        store = (store.save_state d s.workspace_id s.id state).0;
        registry = r;
        result = err e;
      }

  unfoldable pub launched_session :
      CreateWorld → D → Registry → Session → Result StartError (Unit {0}) → Created D
  unfolding start_failure_reason start_error_text
  launched_session w d r s (err e) =
      failed w d r s (start_failure_reason (start_error_text e)) (not_started e)
  launched_session w d r s (ok _) = record { store = d; registry = r; result = ok s }

  -- startSessionRuntime, with the result of the claim.
  unfoldable pub claimed_session :
      CreateWorld
      → D
      → Session
      → TerminalSize
      → Registry × Result SessionError (Unit {0})
      → Created D
  unfolding launched_session start_failure_reason message
  claimed_session w d s size (r, err e) =
      failed w d r s (start_failure_reason (message e)) (rejected (session_error e))
  claimed_session w d s size (r, ok _) =
      let (d', l) = launch w r d s size in
      launched_session w d' (release_session_start l.registry s.id) s l.result

  abbrev pub rejected_as : D → Registry → CreateError → Created D
  rejected_as d r e = record { store = d; registry = r; result = err e }

  unfoldable pub start_created :
      CreateWorld → Registry → TerminalSize → D × Result CreateError Session → Created D
  unfolding claimed_session
  start_created w r size (d, err e) = rejected_as d r e
  start_created w r size (d, ok s) = claimed_session w d s size (claim_session_start r s.id)

  abbrev pub create_checked :
      CreateConfig
      → CreateWorld
      → Registry
      → D
      → CreateSessionReq
      → Workspace
      → String
      → CommandRecord
      → Result CreateError (Unit {0})
      → Created D
  create_checked c w r d q ws cwd command (err e) = rejected_as d r e
  create_checked c w r d q ws cwd command (ok _) =
      start_created w r (requested_size q)
        (create_saved c w d ws (trim_space q.name) cwd command w.session_id)

  unfoldable pub create_in :
      CreateConfig
      → CreateWorld
      → Registry
      → CreateSessionReq
      → String
      → String
      → D × Result CreateError Workspace
      → Created D
  unfolding start_created check_command create_command
  create_in c w r q text cwd (d, err e) = rejected_as d r e
  create_in c w r q text cwd (d, ok ws) =
      let command = create_command w q text in
      create_checked c w r d q ws cwd command (check_command w command)

  unfoldable pub create_with :
      CreateConfig
      → CreateWorld
      → Registry
      → D
      → CreateSessionReq
      → Result CreateError (String × String)
      → Created D
  unfolding create_in workspace_for_create_session
  create_with c w r d q (err e) = rejected_as d r e
  create_with c w r d q (ok (text, cwd)) =
      create_in c w r q text cwd (workspace_for_create_session w d q.workspace_id cwd)

  unfoldable pub create_session :
      CreateConfig → CreateWorld → Registry → D → CreateSessionReq → Created D
  unfolding create_with check_create
  create_session c w r d q = create_with c w r d q (check_create c w q)
