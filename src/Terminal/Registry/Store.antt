-- ===== src/Terminal/Registry/Store.antt =====
-- RuntimeStore of internal/agent/application/task/terminal/registry.go: what the registry asks of a
-- store whose state is a `D`; and the store in JSON files as one. The clock is an argument of the
-- methods that read it.
use term_bridge.Prelude.{ℕ, String, List, Result}
use term_bridge.Session.State.{StateRecord}
use term_bridge.Session.Record.{Session, View, ProcessRecord, ExitRecord}
use term_bridge.Store.Node.{Workspace}
use term_bridge.Store.Disk
use term_bridge.Store.Disk.{Json, Os, Disk, StoreError, Warning}
use term_bridge.Store.Sessions
use term_bridge.Store.Sessions.Lists

pub record RuntimeStore (D : Type 0) : Type 0 where
  pub find_workspace_by_path : D → String → Result StoreError Workspace
  pub find_workspace_by_id : D → String → Result StoreError Workspace
  pub save_workspace : D → Workspace → D × Result StoreError (Unit {0})
  pub load_workspace : D → String → Result StoreError Workspace
  pub save_session : D → Session → D × Result StoreError (Unit {0})
  pub load_session : D → String → String → Result StoreError Session
  pub update_session :
      D → String → String → (Session → Result StoreError Session) → D × Result StoreError Session
  pub update_terminal_session :
      D → String → String → (Session → Result StoreError Session) → D × Result StoreError Session
  pub delete_session : D → ℕ → String → String → D × Result StoreError (Unit {0})
  pub delete_workspace : D → String → ℕ → D × Result StoreError (Unit {0})
  pub save_state : D → String → String → StateRecord → D × Result StoreError (Unit {0})
  pub load_state : D → String → String → Result StoreError StateRecord
  pub save_process : D → ℕ → String → String → ProcessRecord → D × Result StoreError (Unit {0})
  pub save_process_state :
      D → ℕ → String → String → ProcessRecord → StateRecord → D × Result StoreError (Unit {0})
  pub load_process : D → String → String → Result StoreError ProcessRecord
  pub save_exit : D → ℕ → String → String → ExitRecord → D × Result StoreError (Unit {0})
  pub save_exit_state :
      D → ℕ → String → String → ExitRecord → StateRecord → D × Result StoreError (Unit {0})
  pub save_session_exit_state :
      D → ℕ → Session → ExitRecord → StateRecord → D × Result StoreError (Unit {0})
  pub load_exit : D → String → String → Result StoreError ExitRecord
  pub list_workspaces : D → Result StoreError (List Workspace × List Warning)
  pub list_sessions_by_workspace_id : D → String → Result StoreError (List View × List Warning)
  pub list_sessions : D → Result StoreError (List View × List Warning)
  pub update_workspace_order :
      D → List String → ℕ → D × Result StoreError (List Workspace × List Warning)
  pub update_session_order :
      D → String → List String → ℕ → D × Result StoreError (List View × List Warning)

abbrev pub json_store : {B : Type 0} → Json B → Os → RuntimeStore (Disk B)
json_store json os = record {
  find_workspace_by_path = Disk.find_workspace_by_path json os;
  find_workspace_by_id = Disk.load_workspace json os;
  save_workspace = Disk.save_workspace json os;
  load_workspace = Disk.load_workspace json os;
  save_session = Sessions.save_session json os;
  load_session = Sessions.load_session json os;
  update_session = Sessions.update_session json os;
  update_terminal_session = Sessions.update_terminal_session json os;
  delete_session = Sessions.delete_session json os;
  delete_workspace = Disk.delete_workspace json os;
  save_state = Sessions.save_state json os;
  load_state = Sessions.load_state json os;
  save_process = Sessions.save_process json os;
  save_process_state = Sessions.save_process_state json os;
  load_process = Sessions.load_process json os;
  save_exit = Sessions.save_exit json os;
  save_exit_state = Sessions.save_exit_state json os;
  save_session_exit_state = Sessions.save_session_exit_state json os;
  load_exit = Sessions.load_exit json os;
  list_workspaces = Disk.list_workspaces json os;
  list_sessions_by_workspace_id = Lists.list_sessions_by_workspace_id json os;
  list_sessions = Lists.list_sessions json os;
  update_workspace_order = Disk.update_workspace_order json os;
  update_session_order = Lists.update_session_order json os;
}
