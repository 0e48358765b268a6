-- ===== src/Store/Sessions.antt =====
-- The operations on sessions in store.go. A session is a node in the file of its workspace, so each
-- operation loads that file, changes a node and saves the file. `now` is the clock.
pub mod Lists
pub mod Kept
use term_bridge.Prelude.{
  ℕ, String, Bool, true, false, not, ◌&&◌, ◌==◌, eqb, if◌then◌else◌, Option, none, some, List, [],
  ◌∷◌, ◌++◌, Result, ok, err, ◌>>=◌, ◌>>◌,
}
use term_bridge.Session.State.{StateRecord, terminal}
use term_bridge.Session.Record.{Session, ProcessRecord, ExitRecord, View}
use term_bridge.Store.Node.{
  Workspace, SessionNode, find_node, node_ids, update_node, upsert_session_node, remove_session,
  node_command, node_history, session_node_from_session, session_from_workspace_node,
  workspace_state_from_session, session_state_from_workspace, workspace_process_from_process,
  process_from_workspace_process, workspace_exit_from_process, process_exit_from_workspace_exit,
}
use term_bridge.Store.Disk.{
  Json, Os, Disk, StoreError, not_exist, io_failed, no_longer_terminal, invalid_state,
  load_workspace, save_workspace,
}

abbrev pub found {ℓ} : {A : Type ℓ} → Option A → Result StoreError A
found none = err not_exist
found (some a) = ok a

abbrev pub valid_or {ℓ} : {A : Type ℓ} → String → Option A → Result StoreError A
valid_or state none = err (invalid_state state)
valid_or state (some a) = ok a

-- The first time of the given ones that is not zero.
abbrev pub first_time : ℕ → ℕ → ℕ
first_time a b = if eqb a 0 then b else a

unfoldable pub set_state : StateRecord → SessionNode → SessionNode
unfolding workspace_state_from_session
set_state s c = record c { state = workspace_state_from_session s; updated_at = s.updated_at }

unfoldable pub set_process : ℕ → ProcessRecord → SessionNode → SessionNode
unfolding workspace_process_from_process
set_process now p c = record c {
  current_run = record c.current_run { process = some (workspace_process_from_process p) };
  updated_at = first_time p.started_at now;
}

unfoldable pub set_process_state : ℕ → ProcessRecord → StateRecord → SessionNode → SessionNode
unfolding workspace_process_from_process workspace_state_from_session
set_process_state now p s c = record c {
  current_run = record c.current_run { process = some (workspace_process_from_process p) };
  state = workspace_state_from_session s;
  updated_at = first_time s.updated_at (first_time p.started_at now);
}

unfoldable pub set_exit : ℕ → ExitRecord → SessionNode → SessionNode
unfolding workspace_exit_from_process
set_exit now e c = record c {
  current_run = record c.current_run { exit = some (workspace_exit_from_process e) };
  updated_at = first_time e.ended_at now;
}

unfoldable pub set_exit_state : ℕ → ExitRecord → StateRecord → SessionNode → SessionNode
unfolding workspace_exit_from_process workspace_state_from_session
set_exit_state now e s c = record c {
  current_run = record c.current_run { exit = some (workspace_exit_from_process e) };
  state = workspace_state_from_session s;
  updated_at = first_time s.updated_at (first_time e.ended_at now);
}

unfoldable pub set_session_exit_state :
    ℕ → Session → ExitRecord → StateRecord → SessionNode → SessionNode
unfolding node_command node_history set_exit_state
set_session_exit_state now v e s c = set_exit_state now e s (record c {
  name = v.name;
  launch_cwd = v.launch_cwd;
  command = node_command v.command;
  history = node_history v.history;
})

abbrev pub view_of_node : Workspace → SessionNode → StateRecord → View
view_of_node ws c s =
    let sess = session_from_workspace_node ws c in
    record {
      session = sess;
      state = s;
      exit_code = elim c.current_run.exit [ none ↦ none | some e ↦ some e.exit_code ];
      exit_reason = elim c.current_run.exit [ none ↦ "" | some e ↦ e.reason ];
      command_text = sess.command.command;
    }

module _ {B : Type 0} (json : Json B) (os : Os) where
  -- loadSessionNode
  unfoldable pub load_session_node : Disk B → String → String → Result StoreError SessionNode
  unfolding load_workspace find_node
  load_session_node d w s = do ws ← load_workspace json os d w; found (find_node ws.children s)

  unfoldable pub load_session : Disk B → String → String → Result StoreError Session
  unfolding load_workspace find_node session_from_workspace_node
  load_session d w s = do
    ws ← load_workspace json os d w
    child ← found (find_node ws.children s)
    ok (session_from_workspace_node ws child)

  abbrev pub save_in :
      Disk B → Session → Result StoreError Workspace → Disk B × Result StoreError (Unit {0})
  save_in d v (err e) = (d, err e)
  save_in d v (ok ws) =
      save_workspace json os d (
        upsert_session_node (record ws { updated_at = v.updated_at }) (session_node_from_session v))

  unfoldable pub save_session : Disk B → Session → Disk B × Result StoreError (Unit {0})
  unfolding save_workspace upsert_session_node session_node_from_session load_workspace
  save_session d v = save_in d v (load_workspace json os d v.workspace_id)

  abbrev pub saved_value :
      Session → Disk B × Result StoreError (Unit {0}) → Disk B × Result StoreError Session
  saved_value v (d, err e) = (d, err e)
  saved_value v (d, ok _) = (d, ok v)

  abbrev pub save_updated : Disk B → Result StoreError Session → Disk B × Result StoreError Session
  save_updated d (err e) = (d, err e)
  save_updated d (ok v) = saved_value v (save_session d v)

  unfoldable pub update_session :
      Disk B
      → String
      → String
      → (Session → Result StoreError Session)
      → Disk B × Result StoreError Session
  unfolding load_session save_session
  update_session d w s change = save_updated d (load_session d w s >>= change)

  unfoldable pub load_state : Disk B → String → String → Result StoreError StateRecord
  unfolding load_session_node session_state_from_workspace
  load_state d w s = do
    c ← load_session_node d w s
    valid_or c.state.state (session_state_from_workspace c.state)

  abbrev pub update_if_terminal :
      Disk B
      → String
      → String
      → (Session → Result StoreError Session)
      → Result StoreError StateRecord
      → Disk B × Result StoreError Session
  update_if_terminal d w s change (err e) = (d, err e)
  update_if_terminal d w s change (ok state) =
      if not (terminal state.state)
      then (d, err no_longer_terminal)
      else update_session d w s change

  unfoldable pub update_terminal_session :
      Disk B
      → String
      → String
      → (Session → Result StoreError Session)
      → Disk B × Result StoreError Session
  unfolding load_state update_session terminal
  update_terminal_session d w s change = update_if_terminal d w s change (load_state d w s)

  -- os.RemoveAll of the directory of the session.
  abbrev pub then_remove :
      Disk B × Result StoreError (Unit {0}) → Disk B × Result StoreError (Unit {0})
  then_remove (d, err e) = (d, err e)
  then_remove (d, ok _) = (d, if os.remove_session_fails then err io_failed else ok tt)

  abbrev pub delete_in :
      Disk B → ℕ → String → Result StoreError Workspace → Disk B × Result StoreError (Unit {0})
  delete_in d now s (err e) = (d, err e)
  delete_in d now s (ok ws) =
      then_remove (save_workspace json os d (remove_session (record ws { updated_at = now }) s))

  unfoldable pub delete_session :
      Disk B → ℕ → String → String → Disk B × Result StoreError (Unit {0})
  unfolding save_workspace remove_session load_workspace
  delete_session d now w s = delete_in d now s (load_workspace json os d w)

  abbrev pub save_children :
      Disk B
      → Workspace
      → Option (List SessionNode × SessionNode)
      → Disk B × Result StoreError (Unit {0})
  save_children d ws none = (d, err not_exist)
  save_children d ws (some (children, c)) =
      save_workspace json os d (record ws { children = children; updated_at = c.updated_at })

  abbrev pub update_node_in :
      Disk B
      → String
      → (SessionNode → SessionNode)
      → Result StoreError Workspace
      → Disk B × Result StoreError (Unit {0})
  update_node_in d s change (err e) = (d, err e)
  update_node_in d s change (ok ws) = save_children d ws (update_node change ws.children s)

  unfoldable pub update_session_node :
      Disk B → String → String → (SessionNode → SessionNode) → Disk B × Result StoreError (Unit {0})
  unfolding save_workspace update_node load_workspace
  update_session_node d w s change = update_node_in d s change (load_workspace json os d w)

  unfoldable pub save_state :
      Disk B → String → String → StateRecord → Disk B × Result StoreError (Unit {0})
  unfolding update_session_node set_state
  save_state d w s state = update_session_node d w s (set_state state)

  unfoldable pub save_process :
      Disk B → ℕ → String → String → ProcessRecord → Disk B × Result StoreError (Unit {0})
  unfolding update_session_node set_process
  save_process d now w s p = update_session_node d w s (set_process now p)

  unfoldable pub save_process_state :
      Disk B
      → ℕ
      → String
      → String
      → ProcessRecord
      → StateRecord
      → Disk B × Result StoreError (Unit {0})
  unfolding update_session_node set_process_state
  save_process_state d now w s p state = update_session_node d w s (set_process_state now p state)

  unfoldable pub load_process : Disk B → String → String → Result StoreError ProcessRecord
  unfolding load_session_node process_from_workspace_process
  load_process d w s = do
    c ← load_session_node d w s
    p ← found c.current_run.process
    ok (process_from_workspace_process p)

  unfoldable pub save_exit :
      Disk B → ℕ → String → String → ExitRecord → Disk B × Result StoreError (Unit {0})
  unfolding update_session_node set_exit
  save_exit d now w s e = update_session_node d w s (set_exit now e)

  unfoldable pub save_exit_state :
      Disk B
      → ℕ
      → String
      → String
      → ExitRecord
      → StateRecord
      → Disk B × Result StoreError (Unit {0})
  unfolding update_session_node set_exit_state
  save_exit_state d now w s e state = update_session_node d w s (set_exit_state now e state)

  unfoldable pub save_session_exit_state :
      Disk B → ℕ → Session → ExitRecord → StateRecord → Disk B × Result StoreError (Unit {0})
  unfolding update_session_node set_session_exit_state
  save_session_exit_state d now v e state =
      update_session_node d v.workspace_id v.id (set_session_exit_state now v e state)

  unfoldable pub load_exit : Disk B → String → String → Result StoreError ExitRecord
  unfolding load_session_node process_exit_from_workspace_exit
  load_exit d w s = do
    c ← load_session_node d w s
    e ← found c.current_run.exit
    ok (process_exit_from_workspace_exit e)
