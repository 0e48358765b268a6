-- ===== src/Store/Refine.antt =====
-- The store refines a map from a workspace's id and a session's id to the node of the session.
use mathlib.Core.Path.{fun_ext}
use term_bridge.Prelude.{
  ℕ, String, ◌≡◌, refl, sym, ap, subst, ◌∙◌, none, some, List, [], ◌∷◌, Result, ok,
}
use term_bridge.Session.State.{StateRecord}
use term_bridge.Session.Record.{Session, ProcessRecord, ExitRecord}
use term_bridge.Store.Node.{SessionNode, session_node_from_session}
use term_bridge.Store.Node.Children.{kept}
use term_bridge.Store.Disk.{Json, Os, Disk, StoreError}
use term_bridge.Store.Disk.Saved.{IsFaithful}
use term_bridge.Store.Sessions.{
  set_state, set_process, set_process_state, set_exit, set_exit_state, set_session_exit_state,
  save_session, save_state, save_process, save_process_state, save_exit, save_exit_state,
  save_session_exit_state, delete_session, update_session_node,
}
use term_bridge.Store.Sessions.Kept.{
  Nodes, node_at, set_node, IsWell, HasNodes, update_session_node-HasNodes, save_session-HasNodes,
  delete_session-HasNodes,
}

-- The calls that change a session.
pub data Op : Type 0 where
  saves_session : Session → Op
  saves_state : String → String → StateRecord → Op
  saves_process : ℕ → String → String → ProcessRecord → Op
  saves_process_state : ℕ → String → String → ProcessRecord → StateRecord → Op
  saves_exit : ℕ → String → String → ExitRecord → Op
  saves_exit_state : ℕ → String → String → ExitRecord → StateRecord → Op
  saves_session_exit_state : ℕ → Session → ExitRecord → StateRecord → Op
  deletes_session : ℕ → String → String → Op

abbrev pub change_node : Nodes → String → String → (SessionNode → SessionNode) → Nodes
change_node f w s change = set_node f w s (elim (f w s) [ none ↦ none | some c ↦ some (change c) ])

-- What a call means for the map.
abbrev pub spec_op : Nodes → Op → Nodes
spec_op f (saves_session v) =
    set_node f v.workspace_id v.id
      (some (kept (f v.workspace_id v.id) (session_node_from_session v)))
spec_op f (saves_state w s state) = change_node f w s (set_state state)
spec_op f (saves_process now w s p) = change_node f w s (set_process now p)
spec_op f (saves_process_state now w s p state) = change_node f w s (set_process_state now p state)
spec_op f (saves_exit now w s e) = change_node f w s (set_exit now e)
spec_op f (saves_exit_state now w s e state) = change_node f w s (set_exit_state now e state)
spec_op f (saves_session_exit_state now v e state) =
    change_node f v.workspace_id v.id (set_session_exit_state now v e state)
spec_op f (deletes_session now w s) = set_node f w s none

abbrev pub spec_run : Nodes → List Op → Nodes
spec_run f [] = f
spec_run f (op ∷ ops) = spec_run (spec_op f op) ops

module _ {B : Type 0} (json : Json B) where
  -- The call as the store answers it.
  abbrev pub run_op : Os → Disk B → Op → Disk B × Result StoreError (Unit {0})
  run_op os d (saves_session v) = save_session json os d v
  run_op os d (saves_state w s state) = save_state json os d w s state
  run_op os d (saves_process now w s p) = save_process json os d now w s p
  run_op os d (saves_process_state now w s p state) = save_process_state json os d now w s p state
  run_op os d (saves_exit now w s e) = save_exit json os d now w s e
  run_op os d (saves_exit_state now w s e state) = save_exit_state json os d now w s e state
  run_op os d (saves_session_exit_state now v e state) =
      save_session_exit_state json os d now v e state
  run_op os d (deletes_session now w s) = delete_session json os d now w s

  -- Calls that all succeed, oldest first, each under its own answers of the operating system.
  pub data Run : Disk B → List Op → Disk B → Type 0 where
    done : {d : Disk B} → Run d [] d
    next :
        (os : Os) {d : Disk B} {op : Op} {ops : List Op} {e : Disk B}
        → (run_op os d op).1 ≡ ok tt
        → Run (run_op os d op).0 ops e
        → Run d (op ∷ ops) e

  module _ (faithful : IsFaithful json) where
    changed-HasNodes :
        (os : Os) (d : Disk B) (w s : String) (change : SessionNode → SessionNode)
        → ((c : SessionNode) → (change c).id ≡ c.id)
        → IsWell json d
        → (update_session_node json os d w s change).1 ≡ ok tt
        → HasNodes json
            (update_session_node json os d w s change).0
            (change_node (node_at json d) w s change)
    changed-HasNodes os d w s change keeps well h =
        let (c, f, n) = update_session_node-HasNodes json os faithful d w s change keeps well h in
        subst
          (λ x.
            HasNodes json (update_session_node json os d w s change).0
              (set_node (node_at json d) w s (elim x [ none ↦ none | some c ↦ some (change c) ])))
          (sym f) n

    op-HasNodes :
        (os : Os) (d : Disk B) (op : Op)
        → IsWell json d
        → (run_op os d op).1 ≡ ok tt
        → HasNodes json (run_op os d op).0 (spec_op (node_at json d) op)
    unfolding save_state save_process save_process_state save_exit save_exit_state
        save_session_exit_state
    op-HasNodes os d (saves_session v) well h = save_session-HasNodes json os faithful d v well h
    op-HasNodes os d (saves_state w s state) well h =
        changed-HasNodes os d w s (set_state state) (λ c. refl) well h
    op-HasNodes os d (saves_process now w s p) well h =
        changed-HasNodes os d w s (set_process now p) (λ c. refl) well h
    op-HasNodes os d (saves_process_state now w s p state) well h =
        changed-HasNodes os d w s (set_process_state now p state) (λ c. refl) well h
    op-HasNodes os d (saves_exit now w s e) well h =
        changed-HasNodes os d w s (set_exit now e) (λ c. refl) well h
    op-HasNodes os d (saves_exit_state now w s e state) well h =
        changed-HasNodes os d w s (set_exit_state now e state) (λ c. refl) well h
    op-HasNodes os d (saves_session_exit_state now v e state) well h =
        changed-HasNodes os d v.workspace_id v.id (set_session_exit_state now v e state) (λ c. refl)
          well h
    op-HasNodes os d (deletes_session now w s) well h =
        delete_session-HasNodes json os faithful d now w s well h

    -- Over a codec that reads back what it has written, and from a disk whose files lie where their
    -- workspaces' ids say and hold no session twice: after any calls that succeed, the disk is such
    -- a disk again, and the node of each session of each workspace is what the calls make of the
    -- map of nodes, each of them changing one entry.
    pub store_refines :
        (d e : Disk B) (ops : List Op)
        → IsWell json d
        → Run d ops e
        → IsWell json e × (node_at json e ≡ spec_run (node_at json d) ops)
    store_refines d _ [] well done = (well, refl)
    store_refines d e (op ∷ ops) well (next os h r) =
        let (well', nodes) = op-HasNodes os d op well h in
        let (end, same) = store_refines (run_op os d op).0 e ops well' r in
        (end, same ∙ ap (λ f. spec_run f ops) (fun_ext (λ v. fun_ext (λ t. nodes v t))))
