-- ===== src/Terminal/Registry/Manage/Refresh.antt =====
-- The operations of internal/agent/application/task/terminal/registry.go on sessions that have no
-- runtime, though their saved state says otherwise: the refresh of listed sessions, and CloseSession.
use term_bridge.Prelude.{
  ℕ, String, Bool, true, not, if◌then◌else◌, Option, none, some, List, [], ◌∷◌, Result, ok, err,
}
use term_bridge.Session.State.{StateRecord, schema_version, state_stopped, terminal}
use term_bridge.Session.Record.{View, ProcessRecord}
use term_bridge.Session.Recovery.{World, AliveStatus, Refreshed, refresh}
use term_bridge.Store.Disk.{StoreError}
use term_bridge.Terminal.Registry.{Registry, has_runtime}
use term_bridge.Terminal.Registry.Store.{RuntimeStore}
use term_bridge.Terminal.Registry.Requests.{
  views_of, loaded_process, succeeded, RegistryError, runtime,
}
use term_bridge.Terminal.Registry.Manage.{session_view}

module _ {D : Type 0} (store : RuntimeStore D) where
  abbrev pub stop_saved :
      View → StateRecord → D × Result StoreError (Unit {0}) → D × Result RegistryError View
  stop_saved v state (d, err e) = (d, err (runtime e))
  stop_saved v state (d, ok _) = (d, ok (record v { state = state }))

  abbrev pub close_viewed :
      D → ℕ → String → String → Result RegistryError View → D × Result RegistryError View
  close_viewed d now w s (err e) = (d, err e)
  close_viewed d now w s (ok v) =
      let state : StateRecord = record {
        schema_version = schema_version;
        state = state_stopped;
        reason = "missing_pty_on_close";
        updated_at = now;
      } in
      if not (terminal v.state.state)
      then stop_saved v state (store.save_state d w s state)
      else (d, ok v)

  -- CloseSession of a session that has no runtime.
  unfoldable pub close_missing_runtime_session :
      D → ℕ → String → String → D × Result RegistryError View
  unfolding session_view terminal
  close_missing_runtime_session d now w s = close_viewed d now w s (session_view store d w s)

  -- The world of a refresh: what the store answers, the checker of processes, and the clock.
  abbrev pub refresh_world : D → (ProcessRecord → AliveStatus) → ℕ → View → Bool → World
  refresh_world d check now v save_ok = record {
    process = loaded_process (store.load_process d v.session.workspace_id v.session.id);
    check = check;
    has_exit = succeeded (store.load_exit d v.session.workspace_id v.session.id);
    save_ok = save_ok;
    now = now;
  }

  -- The registry shows the old view if the state cannot be saved.
  abbrev pub refreshed_view : D → View → Refreshed → Option StateRecord → D × View
  refreshed_view d v r none = (d, elim r.result [ err _ ↦ v | ok _ ↦ r.view ])
  refreshed_view d v r (some s) =
      let (d', saved) = store.save_state d v.session.workspace_id v.session.id s in
      (d', if succeeded saved then r.view else v)

  unfoldable pub refresh_view : Registry → D → (ProcessRecord → AliveStatus) → ℕ → View → D × View
  unfolding refresh
  refresh_view r d check now v =
      let x = refresh (refresh_world d check now v true) v in
      if has_runtime r v.session.id then (d, v) else refreshed_view d v x x.saved

  -- The loop of sessionSummariesFromViews.
  unfoldable pub refresh_views :
      Registry → D → (ProcessRecord → AliveStatus) → ℕ → List View → D × List View
  unfolding refresh_view
  refresh_views r d check now [] = (d, [])
  refresh_views r d check now (v ∷ vs) =
      let (d', v') = refresh_view r d check now v in
      let (d'', vs') = refresh_views r d' check now vs in (d'', v' ∷ vs')

  abbrev pub refresh_listed :
      Registry
      → D
      → (ProcessRecord → AliveStatus)
      → ℕ
      → Result RegistryError (List View)
      → D × Result RegistryError (List View)
  refresh_listed r d check now (err e) = (d, err e)
  refresh_listed r d check now (ok views) =
      let (d', views') = refresh_views r d check now views in (d', ok views')

  unfoldable pub list_sessions_by_workspace_id :
      Registry
      → D
      → (ProcessRecord → AliveStatus)
      → ℕ
      → String
      → D × Result RegistryError (List View)
  unfolding refresh_views
  list_sessions_by_workspace_id r d check now w =
      refresh_listed r d check now (views_of (store.list_sessions_by_workspace_id d w))
