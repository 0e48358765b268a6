-- ===== src/Terminal/Registry/Manage.antt =====
-- The operations of internal/agent/application/task/terminal/registry.go on stored sessions and
-- workspaces, over any store. What the operations return as messages of the API are the views and
-- workspaces that those are made from.
pub mod Safety
pub mod Refresh
pub mod Json
pub mod Shown
pub mod Edited
mod Tests
use term_bridge.Prelude.{
  ℕ, String, Bool, true, false, not, ◌&&◌, ◌||◌, ◌==◌, if◌then◌else◌, Option, none, some, List, [],
  ◌∷◌, Result, ok, err, ◌>>=◌, ◌>>◌, fail_if,
}
use term_bridge.Prelude.Text.{trim_space}
use term_bridge.Session.State.{StateRecord, schema_version, state_stopped, terminal, valid_state}
use term_bridge.Session.Record.{
  Session, CommandRecord, View, ProcessRecord, valid_source, command_source_shortcut,
}
use term_bridge.Session.Errors.{
  SessionError, workspace_not_found, not_found, update_requires_fields, missing_name,
  command_source_requires_command, missing_command, not_editable, cannot_delete_running,
  session_ids_required, duplicate_session_id,
}
use term_bridge.Session.Recovery.{World, AliveStatus, LoadError, Refreshed, refresh}
use term_bridge.Session.Recovery
use term_bridge.Shortcut.{Shortcut, ShortcutError, validate_shortcut_command}
use term_bridge.Store.Node.{Workspace}
use term_bridge.Store.Order.{OrderError, duplicate, unknown}
use term_bridge.Store.Disk.{
  StoreError, not_exist, no_longer_terminal, update_refused, bad_order, Warning,
}
use term_bridge.Terminal.Registry.{Registry, has_runtime}
use term_bridge.Terminal.Registry.Store.{RuntimeStore}
use term_bridge.Terminal.Registry.Requests.{
  is_given, text_of, source_given, is_not_exist, load_error, find_view, views_of, or_runtime,
  or_shortcut, check_request, check_editable, asked_command, check_shortcut, with_source, with_name,
  apply_update, update_error, any_running, session_order_error, workspace_order_error,
  recovery_error, loaded_process, succeeded, RegistryError, WorkspaceError, UpdateSessionReq,
  session_error, shortcut_error, workspace_error, runtime, cannot_delete_with_running_sessions,
  ids_required, duplicate_id,
}

module _ {D : Type 0} (store : RuntimeStore D) where
  unfoldable pub session_view : D → String → String → Result RegistryError View
  unfolding find_view
  session_view d w s = do
    views ← views_of (store.list_sessions_by_workspace_id d w)
    find_view views s

  -- GetSession, as the view that it summarises.
  unfoldable pub get_session : D → String → String → Result RegistryError View
  unfolding session_view
  get_session d w s = session_view d w s

  abbrev pub updated_view : View → D × Result StoreError Session → D × Result RegistryError View
  updated_view v (d, err e) = (d, err (update_error e))
  updated_view v (d, ok s) = (d, ok (record v { session = s; command_text = s.command.command }))

  abbrev pub store_update :
      D → ℕ → String → String → UpdateSessionReq → D × Result StoreError Session
  store_update d now w s q =
      if is_given q.command
      then store.update_terminal_session d w s (apply_update now q)
      else store.update_session d w s (apply_update now q)

  abbrev pub update_viewed :
      D
      → ℕ
      → String
      → String
      → UpdateSessionReq
      → Result RegistryError View
      → D × Result RegistryError View
  update_viewed d now w s q (err e) = (d, err e)
  update_viewed d now w s q (ok v) = updated_view v (store_update d now w s q)

  -- `shortcuts` is what the shortcut store lists, or none.
  unfoldable pub update_session :
      D
      → ℕ
      → Option (List Shortcut)
      → String
      → String
      → UpdateSessionReq
      → D × Result RegistryError View
  unfolding check_request check_editable check_shortcut session_view apply_update
  update_session d now shortcuts w s q = update_viewed d now w s q (do
    check_request q
    v ← session_view d w s
    check_editable q v
    check_shortcut shortcuts q v.session.command
    ok v)

  abbrev pub deleted {ℓ} : {A : Type ℓ} → D × Result StoreError A → D × Result RegistryError A
  deleted (d, r) = (d, or_runtime r)

  abbrev pub delete_viewed :
      Registry
      → D
      → ℕ
      → String
      → String
      → Result RegistryError View
      → D × Result RegistryError (Unit {0})
  delete_viewed r d now w s (err e) = (d, err e)
  delete_viewed r d now w s (ok v) =
      if has_runtime r s || not (terminal v.state.state)
      then (d, err (session_error cannot_delete_running))
      else deleted (store.delete_session d now w s)

  unfoldable pub delete_session :
      Registry → D → ℕ → String → String → D × Result RegistryError (Unit {0})
  unfolding session_view terminal
  delete_session r d now w s = delete_viewed r d now w s (session_view d w s)

  abbrev pub delete_with_sessions :
      Registry
      → D
      → ℕ
      → String
      → Result StoreError (List View × List Warning)
      → D × Result RegistryError (Unit {0})
  delete_with_sessions r d now w (err e) = (d, err (runtime e))
  delete_with_sessions r d now w (ok (views, _)) =
      if any_running r views
      then (d, err (workspace_error cannot_delete_with_running_sessions))
      else deleted (store.delete_workspace d w now)

  abbrev pub delete_found :
      Registry → D → ℕ → String → Result StoreError Workspace → D × Result RegistryError (Unit {0})
  delete_found r d now w (err e) = (d, err (load_error e))
  delete_found r d now w (ok ws) =
      delete_with_sessions r d now ws.id (store.list_sessions_by_workspace_id d w)

  unfoldable pub delete_workspace : Registry → D → ℕ → String → D × Result RegistryError (Unit {0})
  unfolding any_running
  delete_workspace r d now w = delete_found r d now w (store.find_workspace_by_id d w)

  abbrev pub ordered_views :
      D × Result StoreError (List View × List Warning) → D × Result RegistryError (List View)
  ordered_views (d, err e) = (d, err (session_order_error e))
  ordered_views (d, ok (views, _)) = (d, ok views)

  unfoldable pub update_session_order :
      D → ℕ → String → List String → D × Result RegistryError (List View)
  update_session_order d now w [] = (d, err (session_error session_ids_required))
  update_session_order d now w (id ∷ ids) =
      ordered_views (store.update_session_order d w (id ∷ ids) now)

  abbrev pub ordered_workspaces :
      D × Result StoreError (List Workspace × List Warning)
      → D × Result RegistryError (List Workspace)
  ordered_workspaces (d, err e) = (d, err (workspace_order_error e))
  ordered_workspaces (d, ok (values, _)) = (d, ok values)

  unfoldable pub update_workspace_order :
      D → ℕ → List String → D × Result RegistryError (List Workspace)
  update_workspace_order d now [] = (d, err (workspace_error ids_required))
  update_workspace_order d now (id ∷ ids) =
      ordered_workspaces (store.update_workspace_order d (id ∷ ids) now)
