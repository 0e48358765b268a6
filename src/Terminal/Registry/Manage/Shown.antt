-- ===== src/Terminal/Registry/Manage/Shown.antt =====
-- The views that sessionSummariesFromViews of registry.go makes summaries of.
use term_bridge.Prelude.{
  ℕ, true, false, if_both, ◌≡◌, sym, subst, List, [], ◌∷◌, Result, ok, err, Bool-cases, inl, inr,
}
use term_bridge.Session.State.{StateRecord, terminal}
use term_bridge.Session.Record.{View, ProcessRecord}
use term_bridge.Session.Recovery.{AliveStatus, Refreshed, RecoverError, refresh}
use term_bridge.Session.Recovery.Refresh.{Outcome, kept, ended, refresh-Outcome, terminal-refresh}
use term_bridge.Terminal.Registry.{Registry, has_runtime}
use term_bridge.Terminal.Registry.Store.{RuntimeStore}
use term_bridge.Terminal.Registry.Requests.{succeeded}
use term_bridge.Terminal.Registry.Manage.Refresh.{
  refresh_world, refreshed_view, refresh_view, refresh_views,
}

-- A view is shown as it is, or, of a session without a runtime whose state was not terminal, with a
-- terminal state and the rest as it is.
pub data IsShown (r : Registry) (v : View) : View → Type 0 where
  as_saved : IsShown r v v
  as_ended :
      (s : StateRecord)
      → has_runtime r v.session.id ≡ false
      → terminal v.state.state ≡ false
      → terminal s.state ≡ true
      → IsShown r v (record v { state = s })

-- The views of the first list in its order, each shown.
pub data AreShown (r : Registry) : List View → List View → Type 0 where
  no_views : AreShown r [] []
  one_shown :
      {v v' : View}
      → {vs vs' : List View} → IsShown r v v'
      → AreShown r vs vs'
      → AreShown r (v ∷ vs) (v' ∷ vs')

module _ {D : Type 0} (store : RuntimeStore D) where
  result_kept :
      (r : Registry) (v u : View) (b : Result RecoverError (Unit {0}))
      → u ≡ v
      → IsShown r v (elim b [ err _ ↦ v | ok _ ↦ u ])
  result_kept r v u (err e) q = as_saved
  result_kept r v u (ok _) q = subst (IsShown r v) (sym q) as_saved

  refreshed-IsShown :
      (r : Registry) (d : D) (v : View) (x : Refreshed)
      → has_runtime r v.session.id ≡ false
      → terminal v.state.state ≡ false
      → Outcome v x
      → IsShown r v (refreshed_view store d v x x.saved).1
  refreshed-IsShown r d v x h t (kept n k) =
      subst (λ o. IsShown r v (refreshed_view store d v x o).1) (sym n)
        (result_kept r v x.view x.result k)
  refreshed-IsShown r d v x h t (ended s n g k) =
      subst (λ o. IsShown r v (refreshed_view store d v x o).1) (sym n)
        (if_both (IsShown r v)
          (succeeded (store.save_state d v.session.workspace_id v.session.id s).1) x.view v
          (λ _. subst (IsShown r v) (sym k) (as_ended s h t g)) (λ _. as_saved))

  refresh_view-IsShown :
      (r : Registry) (d : D) (check : ProcessRecord → AliveStatus) (now : ℕ) (v : View)
      → IsShown r v (refresh_view store r d check now v).1
  unfolding refresh_view refresh
  refresh_view-IsShown r d check now v =
      if_both (λ (y : D × View). IsShown r v y.1) (has_runtime r v.session.id) _ _ (λ _. as_saved)
        (λ h. elim (Bool-cases (terminal v.state.state)) [
          | inl t ↦
              subst (λ x. IsShown r v (refreshed_view store d v x x.saved).1)
                (sym (terminal-refresh (refresh_world store d check now v true) v t)) as_saved
          | inr t ↦
              refreshed-IsShown r d v _ h t
                (refresh-Outcome (refresh_world store d check now v true) v)
        ])

  pub refresh_views-AreShown :
      (r : Registry) (d : D) (check : ProcessRecord → AliveStatus) (now : ℕ) (vs : List View)
      → AreShown r vs (refresh_views store r d check now vs).1
  unfolding refresh_views
  refresh_views-AreShown r d check now [] = no_views
  refresh_views-AreShown r d check now (v ∷ vs) =
      one_shown (refresh_view-IsShown r d check now v)
        (refresh_views-AreShown r (refresh_view store r d check now v).0 check now vs)
