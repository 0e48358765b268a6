-- ===== src/Store/RoundTrip.antt =====
-- What a call of the store has saved is what the next one loads.
use text.Mathlib.TextPositions.{eq_refl}
use term_bridge.Prelude.{ℕ, String, true, false, ◌≡◌, refl, ap, ◌∙◌, Option, none, some, ok, arith}
use term_bridge.Session.State.{StateRecord, valid_state}
use term_bridge.Session.Record.{Session, ExitRecord}
use term_bridge.Store.Node.{
  Workspace, SessionNode, find_node, session_node_from_session, session_from_workspace_node,
  node_command, node_history, workspace_state_from_session, session_state_from_workspace,
  workspace_exit_from_process, process_exit_from_workspace_exit,
}
use term_bridge.Store.Node.Children.{kept}
use term_bridge.Store.Disk.{Json, Os, Disk, load_workspace, read_file}
use term_bridge.Store.Disk.Saved.{IsFaithful, workspace_at, read_back}
use term_bridge.Store.Sessions.{
  load_session_node, load_session, load_state, load_exit, save_session, save_session_exit_state,
  set_session_exit_state, set_exit_state,
}
use term_bridge.Store.Sessions.Kept.{
  node_at, find_in, set_node, IsWell, update_session_node-HasNodes, save_session-HasNodes,
}

set_node-same :
    (f : String → String → Option SessionNode) (w s : String) (x : Option SessionNode)
    → set_node f w s x w s ≡ x
set_node-same f w s x = rw (eq_refl w, eq_refl s)

find_in-some :
    (o : Option Workspace) (s : String) (c : SessionNode)
    → find_in o s ≡ some c
    → (ws : Workspace) × (o ≡ some ws) × (find_node ws.children s ≡ some c)
find_in-some none s c h = ground (arith, h)
find_in-some (some ws) s c h = (ws, refl, h)

module _ {B : Type 0} (json : Json B) (os : Os) where
  read_file-found :
      (b : Option B) (ws : Workspace)
      → read_back json b ≡ some ws
      → read_file json os false b ≡ ok ws
  unfolding read_file
  read_file-found none ws h = ground (arith, h)
  read_file-found (some b) ws h = rw h

  load_workspace-found :
      (d : Disk B) (w : String) (ws : Workspace)
      → os.read_fails w ≡ false
      → workspace_at json d w ≡ some ws
      → load_workspace json os d w ≡ ok ws
  unfolding load_workspace
  load_workspace-found d w ws r h = rw r (read_file-found (d.files w) ws h)

  load_session_node-found :
      (d : Disk B) (w s : String) (c : SessionNode)
      → os.read_fails w ≡ false
      → node_at json d w s ≡ some c
      → load_session_node json os d w s ≡ ok c
  unfolding load_session_node
  load_session_node-found d w s c r h =
      let (ws, at_w, f) = find_in-some (workspace_at json d w) s c h in
      rw (load_workspace-found d w ws r at_w, f)

  load_session-found :
      (d : Disk B) (w s : String) (c : SessionNode)
      → IsWell json d
      → os.read_fails w ≡ false
      → node_at json d w s ≡ some c
      → (ws : Workspace) × (ws.id ≡ w)
        × (load_session json os d w s ≡ ok (session_from_workspace_node ws c))
  unfolding load_session
  load_session-found d w s c well r h =
      let (ws, at_w, f) = find_in-some (workspace_at json d w) s c h in
      (ws, (well w ws at_w).0, rw (load_workspace-found d w ws r at_w, f))

-- A session as its node gives it back.
session_again :
    (ws : Workspace) (v : Session) (o : Option SessionNode)
    → ws.id ≡ v.workspace_id
    → session_from_workspace_node ws (kept o (session_node_from_session v))
      ≡ record v { schema_version = 1 }
unfolding session_from_workspace_node session_node_from_session node_command node_history
session_again ws v none e = ap (λ w. record v { schema_version = 1; workspace_id = w }) e
session_again ws v (some c) e = ap (λ w. record v { schema_version = 1; workspace_id = w }) e

state_again :
    (s : StateRecord)
    → valid_state s.state ≡ true
    → session_state_from_workspace (workspace_state_from_session s) ≡ some s
unfolding session_state_from_workspace workspace_state_from_session
state_again s h = rw h

module _ {B : Type 0} (json : Json B) (faithful : IsFaithful json) (os os' : Os) (d : Disk B)
    (well : IsWell json d) where
  -- Over a faithful codec and a well-formed disk: after a SaveSession that succeeds, LoadSession of
  -- the session, if its file can be read, gives it back, in the current version of the schema.
  pub save_session_round_trip :
      (v : Session)
      → (save_session json os d v).1 ≡ ok tt
      → os'.read_fails v.workspace_id ≡ false
      → load_session json os' (save_session json os d v).0 v.workspace_id v.id
        ≡ ok (record v { schema_version = 1 })
  save_session_round_trip v h r =
      let (well', nodes) = save_session-HasNodes json os faithful d v well h in
      let o = node_at json d v.workspace_id v.id in
      let (ws, e, l) =
        load_session-found json os' (save_session json os d v).0 v.workspace_id v.id
          (kept o (session_node_from_session v)) well' r
          (nodes v.workspace_id v.id
            ∙ set_node-same (node_at json d) v.workspace_id v.id
                (some (kept o (session_node_from_session v)))) in
      l ∙ ap (λ s. ok s) (session_again ws v o e)

  -- Over a faithful codec and a well-formed disk: after a SaveSessionExitState that succeeds, whose
  -- state is valid, LoadExit and LoadState of the session, if its file can be read, give back the
  -- exit and the state.
  pub save_exit_round_trip :
      (now : ℕ) (v : Session) (e : ExitRecord) (s : StateRecord)
      → valid_state s.state ≡ true
      → (save_session_exit_state json os d now v e s).1 ≡ ok tt
      → os'.read_fails v.workspace_id ≡ false
      → (load_exit json os' (save_session_exit_state json os d now v e s).0 v.workspace_id v.id
          ≡ ok e)
        × (load_state json os' (save_session_exit_state json os d now v e s).0 v.workspace_id v.id
            ≡ ok s)
  unfolding save_session_exit_state load_exit load_state process_exit_from_workspace_exit
      set_session_exit_state set_exit_state workspace_exit_from_process
  save_exit_round_trip now v e s valid h r =
      let change = set_session_exit_state now v e s in
      let (c, f, n) =
        update_session_node-HasNodes json os faithful d v.workspace_id v.id change (λ c. refl) well
          h in
      let l =
        load_session_node-found json os' (save_session_exit_state json os d now v e s).0
          v.workspace_id v.id (change c) r
          (n.1 v.workspace_id v.id
            ∙ set_node-same (node_at json d) v.workspace_id v.id (some (change c))) in
      (rw l, rw (l, state_again s valid))
