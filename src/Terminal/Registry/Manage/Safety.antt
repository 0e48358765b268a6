-- ===== src/Terminal/Registry/Manage/Safety.antt =====
-- When UpdateSession, DeleteSession and DeleteWorkspace of registry.go ask the store for a change, over
-- any store.
use term_bridge.Prelude.{
  ℕ, String, true, false, not, ◌||◌, ◌==◌, eq_iff, if_both, ◌≡◌, refl, sym, ap, ◌∙◌, Option, List,
  [], ◌∷◌, Result, ok, err, bind-ok, ◌>>=◌, ◌>>◌, arith,
}
use term_bridge.Session.State.{terminal}
use term_bridge.Session.Record.{Session, View}
use term_bridge.Shortcut.{Shortcut}
use term_bridge.Store.Node.{Workspace}
use term_bridge.Store.Disk.{StoreError, Warning}
use term_bridge.Terminal.Registry.{Registry, has_runtime}
use term_bridge.Terminal.Registry.Store.{RuntimeStore}
use term_bridge.Terminal.Registry.Requests.{
  RegistryError, UpdateSessionReq, is_given, find_view, any_running, views_of, succeeded,
  check_request, check_editable, check_shortcut,
}
use term_bridge.Terminal.Registry.Manage.{
  session_view, deleted, delete_viewed, delete_session, delete_with_sessions, delete_found,
  delete_workspace, update_viewed, updated_view, store_update, update_session,
}

-- The session has no runtime, and its saved state is terminal.
abbrev pub IsIdle : Registry → View → Type 0
IsIdle r v = (has_runtime r v.session.id ≡ false) × (terminal v.state.state ≡ true)

pub data AreIdle (r : Registry) : List View → Type 0 where
  no_sessions : AreIdle r []
  one_idle : {v : View} → {vs : List View} → IsIdle r v → AreIdle r vs → AreIdle r (v ∷ vs)

-- An operation either returns an error and leaves the store as it is, or P holds and what it leaves
-- and whether it succeeds is what the store answers to the call.
pub data IsGuarded {D A B : Type 0} (d : D) (P : Type 0) (call : P → D × Result StoreError A)
    (x : D × Result RegistryError B) : Type 0 where
  refused : (e : RegistryError) → x ≡ (d, err e) → IsGuarded d P call x
  called : (p : P) → x.0 ≡ (call p).0 → succeeded x.1 ≡ succeeded (call p).1 → IsGuarded d P call x

or_view : View → Result RegistryError View → View
or_view v (ok w) = w
or_view v (err e) = v

pub find_view-id :
    (vs : List View) (id : String) (v : View) → find_view vs id ≡ ok v → v.session.id ≡ id
unfolding find_view or_view
find_view-id [] id v = λ e. ground (arith, e)
find_view-id (x ∷ vs) id v =
    if_both (λ r. r ≡ ok v → v.session.id ≡ id) (x.session.id == id) (ok x) (find_view vs id)
      (λ y e. sym (ap (λ u. u.session.id) (ap (or_view v) e)) ∙ (eq_iff x.session.id id).0 y)
      (λ _ e. find_view-id vs id v e)

any_running-AreIdle : (r : Registry) (vs : List View) → any_running r vs ≡ false → AreIdle r vs
unfolding any_running
any_running-AreIdle r [] e = no_sessions
any_running-AreIdle r (v ∷ vs) e =
    one_idle (ground (arith, e), ground (arith, e)) (any_running-AreIdle r vs (ground (arith, e)))

module _ {D : Type 0} (store : RuntimeStore D) where
  viewed-id : (d : D) (w s : String) (v : View) → session_view store d w s ≡ ok v → v.session.id ≡ s
  unfolding session_view
  viewed-id d w s v = go (store.list_sessions_by_workspace_id d w)
    where
      go :
          (l : Result StoreError (List View × List Warning))
          → (views_of l >>= λ views. find_view views s) ≡ ok v
          → v.session.id ≡ s
      go (err x) e = ground (arith, e)
      go (ok (views, _)) e = find_view-id views s v e

  deleted-same :
      {A : Type 0} (x : D × Result StoreError A)
      → ((deleted store x).0 ≡ x.0) × (succeeded (deleted store x).1 ≡ succeeded x.1)
  deleted-same (d, err e) = (refl, refl)
  deleted-same (d, ok a) = (refl, refl)

  updated-same :
      (v : View) (x : D × Result StoreError Session)
      → ((updated_view store v x).0 ≡ x.0) × (succeeded (updated_view store v x).1 ≡ succeeded x.1)
  updated-same v (d, err e) = (refl, refl)
  updated-same v (d, ok s) = (refl, refl)

  unblocked :
      (r : Registry) (s : String) (v : View)
      → v.session.id ≡ s
      → (has_runtime r s || not (terminal v.state.state)) ≡ false
      → IsIdle r v
  unblocked r s v q n = (ap (has_runtime r) q ∙ ground (arith, n), ground (arith, n))

  -- The store lists the session, and it is idle.
  abbrev pub IsDeletable : Registry → D → String → String → Type 0
  IsDeletable r d w s =
      (v : View) × (session_view store d w s ≡ ok v) × (v.session.id ≡ s) × IsIdle r v

  -- The store finds the workspace, and all sessions that it lists in it are idle.
  abbrev pub IsUnused : Registry → D → String → Type 0
  IsUnused r d w =
      (ws : Workspace) × (views : List View) × (warnings : List Warning)
      × (store.find_workspace_by_id d w ≡ ok ws)
      × (store.list_sessions_by_workspace_id d w ≡ ok (views, warnings))
      × AreIdle r views

  -- The request is complete, the store lists the session, and if the request changes the command then
  -- the state of the session is terminal.
  abbrev pub IsEditable : D → String → String → UpdateSessionReq → Type 0
  IsEditable d w s q =
      (v : View) × (session_view store d w s ≡ ok v)
      × (check_request q ≡ ok tt)
      × (is_given q.command ≡ true → terminal v.state.state ≡ true)

  -- DeleteSession asks the store to delete the session only when the store lists it with a terminal
  -- state and it has no runtime. Otherwise it returns an error and leaves the store as it is.
  pub delete_session-IsGuarded :
      (r : Registry) (d : D) (now : ℕ) (w s : String)
      → IsGuarded d
          (IsDeletable r d w s)
          (λ _. store.delete_session d now w s)
          (delete_session store r d now w s)
  unfolding delete_session
  delete_session-IsGuarded r d now w s = go (session_view store d w s) refl
    where
      go :
          (x : Result RegistryError View)
          → session_view store d w s ≡ x
          → IsGuarded d
              (IsDeletable r d w s)
              (λ _. store.delete_session d now w s)
              (delete_viewed store r d now w s x)
      go (err e) q = refused e refl
      go (ok v) q =
          if_both (IsGuarded d _ _) (has_runtime r s || not (terminal v.state.state)) _ _
            (λ y. refused _ refl)
            (λ n.
              let i = viewed-id d w s v q in
              let same = deleted-same (store.delete_session d now w s) in
              called (v, q, i, unblocked r s v i n) same.0 same.1)

  -- DeleteWorkspace asks the store to delete the workspace that it finds only when every session that
  -- the store lists in it has a terminal state and no runtime. Otherwise it returns an error and
  -- leaves the store as it is.
  pub delete_workspace-IsGuarded :
      (r : Registry) (d : D) (now : ℕ) (w : String)
      → IsGuarded d
          (IsUnused r d w)
          (λ p. store.delete_workspace d p.0.id now)
          (delete_workspace store r d now w)
  unfolding delete_workspace
  delete_workspace-IsGuarded r d now w = go (store.find_workspace_by_id d w) refl
    where
      listed :
          (ws : Workspace)
          → store.find_workspace_by_id d w ≡ ok ws
          → (l : Result StoreError (List View × List Warning))
          → store.list_sessions_by_workspace_id d w ≡ l
          → IsGuarded d
              (IsUnused r d w)
              (λ p. store.delete_workspace d p.0.id now)
              (delete_with_sessions store r d now ws.id l)
      listed ws f (err e) q = refused _ refl
      listed ws f (ok (views, warnings)) q =
          if_both (IsGuarded d _ _) (any_running r views) _ _ (λ y. refused _ refl)
            (λ n.
              let same = deleted-same (store.delete_workspace d ws.id now) in
              called (ws, views, warnings, f, q, any_running-AreIdle r views n) same.0 same.1)

      go :
          (x : Result StoreError Workspace)
          → store.find_workspace_by_id d w ≡ x
          → IsGuarded d
              (IsUnused r d w)
              (λ p. store.delete_workspace d p.0.id now)
              (delete_found store r d now w x)
      go (err e) q = refused _ refl
      go (ok ws) q = listed ws q (store.list_sessions_by_workspace_id d w) refl

  editable :
      (q : UpdateSessionReq) (v : View)
      → check_editable q v ≡ ok tt
      → is_given q.command ≡ true
      → terminal v.state.state ≡ true
  unfolding check_editable
  editable q v e g = ground (arith, e, g)

  checked :
      (d : D) (shortcuts : Option (List Shortcut)) (w s : String) (q : UpdateSessionReq) (v : View)
      → (do
        check_request q
        v ← session_view store d w s
        check_editable q v
        check_shortcut shortcuts q v.session.command
        ok v)
        ≡ ok v
      → IsEditable d w s q
  checked d shortcuts w s q v e =
      let (_, c, e1) = bind-ok (check_request q) _ v e in
      let (u, l, e2) = bind-ok (session_view store d w s) _ v e1 in
      let (_, k, _) = bind-ok (check_editable q u) _ v e2 in (u, l, c, editable q u k)

  -- UpdateSession asks the store to change the session only when the request is complete and the store
  -- lists the session, which must be terminal for a change of the command. Otherwise it returns an
  -- error and leaves the store as it is.
  pub update_session-IsGuarded :
      (d : D) (now : ℕ) (shortcuts : Option (List Shortcut)) (w s : String) (q : UpdateSessionReq)
      → IsGuarded d
          (IsEditable d w s q)
          (λ _. store_update store d now w s q)
          (update_session store d now shortcuts w s q)
  unfolding update_session
  update_session-IsGuarded d now shortcuts w s q = go _ (checked d shortcuts w s q)
    where
      go :
          (x : Result RegistryError View)
          → ((v : View) → x ≡ ok v → IsEditable d w s q)
          → IsGuarded d
              (IsEditable d w s q)
              (λ _. store_update store d now w s q)
              (update_viewed store d now w s q x)
      go (err e) h = refused e refl
      go (ok v) h =
          let same = updated-same v (store_update store d now w s q) in
          called (h v refl) same.0 same.1
