-- ===== src/Terminal/Registry/Views.antt =====
-- What internal/agent/application/task/terminal/registry.go tells of its sessions: summaries, lists,
-- the tree of workspaces, the history, and the runtime that Attach and CloseSession look up. `live`
-- is the map of runtimes, and the registry `r` says which keys it has.
pub mod Listed
mod Tests
use term_bridge.Prelude.{
  ℕ, String, Bool, true, false, not, ◌==◌, if◌then◌else◌, Option, none, some, List, [], ◌∷◌, Result,
  ok, err, ℤ,
}
use term_bridge.Session.State.{state_running}
use term_bridge.Session.Record.{View, ProcessRecord}
use term_bridge.Session.Errors.{SessionError, not_attachable, not_found}
use term_bridge.Session.Recovery.{AliveStatus}
use term_bridge.Store.Node.{Workspace}
use term_bridge.Store.Disk.{StoreError, Warning}
use term_bridge.Terminal.Exit.{to_int32}
use term_bridge.Terminal.Runtime.{Runtime, attachment_text}
use term_bridge.Terminal.Registry.{Registry}
use term_bridge.Terminal.Registry.Store.{RuntimeStore}
use term_bridge.Terminal.Registry.Requests.{RegistryError, session_error, runtime}
use term_bridge.Terminal.Registry.Manage.{session_view, get_session}
use term_bridge.Terminal.Registry.Manage.Refresh.{refresh_views, close_missing_runtime_session}

abbrev pub Live : Type 0
Live = String → Option Runtime

-- agent.SessionSummary
pub record Summary : Type 0 where
  pub id : String
  pub name : String
  pub workspace_id : String
  pub command : String
  pub cwd : String
  pub lifecycle_state : String
  pub attachment_state : String
  pub exit_code : Option ℤ
  pub updated_at : ℕ
  pub command_source : String
  pub shortcut_id_snapshot : String
  pub shortcut_name_snapshot : String

unfoldable pub exit_code_from_int : Option ℤ → Option ℤ
unfolding to_int32
exit_code_from_int none = none
exit_code_from_int (some value) = some (to_int32 value)

abbrev pub shown_attachment : Option Runtime → String
shown_attachment none = "unattached"
shown_attachment (some t) = attachment_text t.attachment

abbrev pub shown_state : View → Option Runtime → String
shown_state v none = v.state.state
shown_state v (some t) = state_running

unfoldable pub summary_from_view : Live → View → Summary
unfolding exit_code_from_int
summary_from_view live v =
    let t = live v.session.id in
    record {
      id = v.session.id;
      name = v.session.name;
      workspace_id = v.session.workspace_id;
      command = v.command_text;
      cwd = v.session.launch_cwd;
      lifecycle_state = shown_state v t;
      attachment_state = shown_attachment t;
      exit_code = exit_code_from_int v.exit_code;
      updated_at = v.session.updated_at;
      command_source = v.session.command.source;
      shortcut_id_snapshot = v.session.command.shortcut_id_snapshot;
      shortcut_name_snapshot = v.session.command.shortcut_name_snapshot;
    }

unfoldable pub summaries : Live → List View → List Summary
unfolding summary_from_view
summaries live [] = []
summaries live (v ∷ vs) = summary_from_view live v ∷ summaries live vs

-- agent.Workspace
pub record WorkspaceSummary : Type 0 where
  pub id : String
  pub name : String
  pub path : String
  pub updated_at : ℕ

unfoldable pub summary_from_workspace : Workspace → WorkspaceSummary
summary_from_workspace ws = record {
  id = ws.id;
  name = ws.name;
  path = ws.path;
  updated_at = ws.updated_at;
}

unfoldable pub workspace_summaries : List Workspace → List WorkspaceSummary
unfolding summary_from_workspace
workspace_summaries [] = []
workspace_summaries (ws ∷ wss) = summary_from_workspace ws ∷ workspace_summaries wss

-- agent.WorkspaceTreeNode
pub record TreeNode : Type 0 where
  pub workspace : WorkspaceSummary
  pub children : List Summary

-- The runtime of a session, when it belongs to the workspace.
unfoldable pub find_runtime : Live → String → String → Option Runtime
find_runtime live w s = elim (live s) [
  | none ↦ none
  | some t ↦ if t.workspace_id == w then some t else none
]

-- Attach up to the attach of the runtime.
unfoldable pub attach_runtime : Live → String → String → Result SessionError Runtime
unfolding find_runtime
attach_runtime live w s = elim (find_runtime live w s) [ none ↦ err not_attachable | some t ↦ ok t ]

-- What the flush of a live history and the reading of its file give.
pub data HistoryRead : Type 0 where
  no_file read_failed : HistoryRead
  read : List ℕ → HistoryRead

pub data HistoryError : Type 0 where
  registry_error : RegistryError → HistoryError
  flush_failed no_read : HistoryError

-- The check of a live runtime in History.
abbrev pub flushed : Option Runtime → Bool → String → Result HistoryError (Unit {0})
flushed none flush_ok w = ok tt
flushed (some t) flush_ok w =
    if not (t.workspace_id == w)
    then err (registry_error (session_error not_found))
    else if flush_ok
    then ok tt
    else err flush_failed

abbrev pub read_of : HistoryRead → Result HistoryError (List ℕ)
read_of no_file = ok []
read_of read_failed = err no_read
read_of (read bytes) = ok bytes

abbrev pub history_of : Result RegistryError View → HistoryRead → Result HistoryError (List ℕ)
history_of (err e) x = err (registry_error e)
history_of (ok v) x = read_of x

pub data CloseError : Type 0 where
  close_refused : RegistryError → CloseError
  runtime_not_closed : CloseError

module _ {D : Type 0} (store : RuntimeStore D) where
  abbrev pub listed_workspaces :
      Result StoreError (List Workspace × List Warning)
      → Result RegistryError (List WorkspaceSummary)
  listed_workspaces (err e) = err (runtime e)
  listed_workspaces (ok (values, _)) = ok (workspace_summaries values)

  unfoldable pub list_workspaces : D → Result RegistryError (List WorkspaceSummary)
  unfolding workspace_summaries
  list_workspaces d = listed_workspaces (store.list_workspaces d)

  abbrev pub tree_node :
      Registry
      → Live
      → D
      → (ProcessRecord → AliveStatus)
      → ℕ
      → Workspace
      → Result StoreError (List View × List Warning)
      → D × Result RegistryError TreeNode
  tree_node r live d check now ws (err e) = (d, err (runtime e))
  tree_node r live d check now ws (ok (views, _)) =
      let (d', shown) = refresh_views store r d check now views in
      (d', ok (record { workspace = summary_from_workspace ws; children = summaries live shown }))

  abbrev pub add_node :
      D × Result RegistryError TreeNode
      → (D → D × Result RegistryError (List TreeNode))
      → D × Result RegistryError (List TreeNode)
  add_node (d, err e) f = (d, err e)
  add_node (d, ok n) f =
      let (d', rest) = f d in (d', elim rest [ err e ↦ err e | ok ns ↦ ok (n ∷ ns) ])

  unfoldable pub tree_nodes :
      Registry
      → Live
      → (ProcessRecord → AliveStatus)
      → ℕ
      → List Workspace
      → D
      → D × Result RegistryError (List TreeNode)
  unfolding summary_from_workspace summaries
  tree_nodes r live check now [] d = (d, ok [])
  tree_nodes r live check now (ws ∷ wss) d =
      add_node (tree_node r live d check now ws (store.list_sessions_by_workspace_id d ws.id))
        (tree_nodes r live check now wss)

  abbrev pub tree_of :
      Registry
      → Live
      → D
      → (ProcessRecord → AliveStatus)
      → ℕ
      → Result StoreError (List Workspace × List Warning)
      → D × Result RegistryError (List TreeNode)
  tree_of r live d check now (err e) = (d, err (runtime e))
  tree_of r live d check now (ok (values, _)) = tree_nodes r live check now values d

  unfoldable pub workspace_tree :
      Registry
      → Live
      → D
      → (ProcessRecord → AliveStatus)
      → ℕ
      → D × Result RegistryError (List TreeNode)
  unfolding tree_nodes
  workspace_tree r live d check now = tree_of r live d check now (store.list_workspaces d)

  abbrev pub listed_summaries :
      Registry
      → Live
      → (List Summary → List Summary)
      → D
      → (ProcessRecord → AliveStatus)
      → ℕ
      → Result StoreError (List View × List Warning)
      → D × Result RegistryError (List Summary)
  listed_summaries r live newest_first d check now (err e) = (d, err (runtime e))
  listed_summaries r live newest_first d check now (ok (views, _)) =
      let (d', shown) = refresh_views store r d check now views in
      (d', ok (newest_first (summaries live shown)))

  -- ListSessions, over the sort of Go's library by the time of the last update.
  unfoldable pub list_sessions :
      Registry
      → Live
      → (List Summary → List Summary)
      → D
      → (ProcessRecord → AliveStatus)
      → ℕ
      → D × Result RegistryError (List Summary)
  list_sessions r live newest_first d check now =
      listed_summaries r live newest_first d check now (store.list_sessions d)

  abbrev pub closed_view : D → Result RegistryError View → D × Result CloseError View
  closed_view d (err e) = (d, err (close_refused e))
  closed_view d (ok v) = (d, ok v)

  abbrev pub closed_runtime : String → String → D × Bool → D × Result CloseError View
  closed_runtime w s (d, false) = (d, err runtime_not_closed)
  closed_runtime w s (d, true) = closed_view d (get_session store d w s)

  abbrev pub closed_missing : D × Result RegistryError View → D × Result CloseError View
  closed_missing (d, x) = closed_view d x

  -- `close` is what the closing of a runtime leaves in the store, and whether it succeeds.
  unfoldable pub close_session :
      Live → (Runtime → D × Bool) → D → ℕ → String → String → D × Result CloseError View
  unfolding find_runtime get_session close_missing_runtime_session
  close_session live close d now w s = elim (find_runtime live w s) [
    | none ↦ closed_missing (close_missing_runtime_session store d now w s)
    | some t ↦ closed_runtime w s (close t)
  ]

  unfoldable pub history :
      Live → D → Bool → HistoryRead → String → String → Result HistoryError (List ℕ)
  history live d flush_ok x w s = elim (flushed (live s) flush_ok w) [
    | err e ↦ err e
    | ok _ ↦ history_of (session_view store d w s) x
  ]
