-- ===== src/Store/Sessions/Lists.antt =====
-- The lists of sessions in store.go: listSessionsInWorkspace, ListSessionsByWorkspaceId,
-- ListSessions and UpdateSessionOrder.
use term_bridge.Prelude.{ℕ, String, Option, none, some, List, [], ◌∷◌, ◌++◌, Result, ok, err, ◌>>=◌}
use term_bridge.Session.State.{StateRecord}
use term_bridge.Session.Record.{View}
use term_bridge.Store.Node.{Workspace, SessionNode, node_ids, session_state_from_workspace}
use term_bridge.Store.Order.{OrderError, complete_ordered_ids, order_session_nodes}
use term_bridge.Store.Disk.{
  Json, Os, Disk, StoreError, bad_order, Warning, in_session, load_workspace, save_workspace,
  list_workspaces,
}
use term_bridge.Store.Sessions.{view_of_node}

abbrev pub add_view :
    Workspace
    → SessionNode
    → Option StateRecord
    → List View × List Warning
    → List View × List Warning
add_view ws c none (views, warnings) = (views, in_session ws.id c.id ∷ warnings)
add_view ws c (some s) (views, warnings) = (view_of_node ws c s ∷ views, warnings)

unfoldable pub view_nodes : Workspace → List SessionNode → List View × List Warning
unfolding session_state_from_workspace
view_nodes ws [] = ([], [])
view_nodes ws (c ∷ cs) = add_view ws c (session_state_from_workspace c.state) (view_nodes ws cs)

unfoldable pub list_sessions_in_workspace : Workspace → List View × List Warning
unfolding view_nodes order_session_nodes
list_sessions_in_workspace ws = view_nodes ws (order_session_nodes ws.children ws.session_ids)

-- The loop of ListSessions; listing the sessions of a workspace never fails.
unfoldable pub list_all : List Workspace → List View × List Warning
unfolding list_sessions_in_workspace
list_all [] = ([], [])
list_all (ws ∷ rest) =
    let (views, warnings) = list_sessions_in_workspace ws in
    let (views', warnings') = list_all rest in (views ++ views', warnings ++ warnings')

module _ {B : Type 0} (json : Json B) (os : Os) where
  unfoldable pub list_sessions_by_workspace_id :
      Disk B → String → Result StoreError (List View × List Warning)
  unfolding list_sessions_in_workspace load_workspace
  list_sessions_by_workspace_id d w = do
    ws ← load_workspace json os d w
    ok (list_sessions_in_workspace ws)

  unfoldable pub list_sessions : Disk B → Result StoreError (List View × List Warning)
  unfolding list_all list_workspaces
  list_sessions d = do
    listed ← list_workspaces json os d
    ok ((list_all listed.0).0, listed.1 ++ (list_all listed.0).1)

  abbrev pub list_saved :
      Workspace
      → Disk B × Result StoreError (Unit {0})
      → Disk B × Result StoreError (List View × List Warning)
  list_saved ws (d, err e) = (d, err e)
  list_saved ws (d, ok _) = (d, ok (list_sessions_in_workspace ws))

  abbrev pub save_ordered :
      Disk B
      → ℕ
      → Workspace
      → Result OrderError (List String)
      → Disk B × Result StoreError (List View × List Warning)
  save_ordered d now ws (err e) = (d, err (bad_order e))
  save_ordered d now ws (ok ids) =
      let ws' = record ws { session_ids = ids; updated_at = now } in
      list_saved ws' (save_workspace json os d ws')

  abbrev pub order_in :
      Disk B
      → List String
      → ℕ
      → Result StoreError Workspace
      → Disk B × Result StoreError (List View × List Warning)
  order_in d ids now (err e) = (d, err e)
  order_in d ids now (ok ws) =
      save_ordered d now ws (complete_ordered_ids ids (node_ids ws.children))

  unfoldable pub update_session_order :
      Disk B → String → List String → ℕ → Disk B × Result StoreError (List View × List Warning)
  unfolding save_workspace complete_ordered_ids node_ids list_sessions_in_workspace load_workspace
  update_session_order d w ids now = order_in d ids now (load_workspace json os d w)
