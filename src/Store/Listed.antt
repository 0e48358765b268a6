-- ===== src/Store/Listed.antt =====
-- UpdateSessionOrder and the list that it returns.
use term_bridge.Prelude.{
  ℕ, String, true, ◌≡◌, refl, sym, ap, ◌∙◌, List, ◌++◌, Result, ok, err, arith, some,
}
use term_bridge.Prelude.Text.{contains_text}
use term_bridge.Session.Record.{View}
use term_bridge.Store.Node.{Workspace, node_ids}
use term_bridge.Store.Node.Children.{IsDistinct}
use term_bridge.Store.Order.{OrderError, others, complete_ordered_ids, order_session_nodes}
use term_bridge.Store.Order.Complete.{complete_ordered_ids_iff, complete_keeps, complete-IsDistinct}
use term_bridge.Store.Order.Sorted.{order_session_nodes_follow}
use term_bridge.Store.Disk.{Json, Os, Disk, StoreError, Warning, load_workspace, save_workspace}
use term_bridge.Store.Disk.Saved.{workspace_at, load_workspace-reads}
use term_bridge.Store.Sessions.Kept.{IsWell}
use term_bridge.Store.Sessions.Lists.{
  list_sessions_in_workspace, list_saved, save_ordered, order_in, update_session_order,
}

-- The sessions of a workspace, given an order, and the list of them that follows it.
pub record IsReordered (ws : Workspace) (ids : List String) (now : ℕ) (l : List View × List Warning)
    : Type 0 where
  pub distinct : IsDistinct ids
  pub known :
      (x : String) → contains_text ids x ≡ true → contains_text (node_ids ws.children) x ≡ true
  pub listed :
      l
      ≡ list_sessions_in_workspace
          (record ws { session_ids = ids ++ others ids (node_ids ws.children); updated_at = now })
  pub follows :
      node_ids (order_session_nodes ws.children (ids ++ others ids (node_ids ws.children)))
      ≡ ids ++ others ids (node_ids ws.children)

list_of : {A : Type 0} → A → Result StoreError A → A
list_of z (err e) = z
list_of z (ok a) = a

module _ {B : Type 0} (json : Json B) (os : Os) where
  list_saved-listed :
      (ws : Workspace) (x : Disk B × Result StoreError (Unit {0})) (l : List View × List Warning)
      → (list_saved json os ws x).1 ≡ ok l
      → l ≡ list_sessions_in_workspace ws
  unfolding list_of
  list_saved-listed ws (d, err e) l h = ground (arith, h)
  list_saved-listed ws (d, ok _) l h = sym (ap (list_of l) h)

  ordered-IsReordered :
      (d : Disk B) (ids : List String) (now : ℕ) (ws : Workspace) (l : List View × List Warning)
      (r : Result OrderError (List String))
      → IsDistinct (node_ids ws.children)
      → complete_ordered_ids ids (node_ids ws.children) ≡ r
      → (save_ordered json os d now ws r).1 ≡ ok l
      → IsReordered ws ids now l
  ordered-IsReordered d ids now ws l (err e) n q h = ground (arith, h)
  ordered-IsReordered d ids now ws l (ok out) n q h =
      let (distinct, known, e) = (complete_ordered_ids_iff ids (node_ids ws.children) out).0 q in
      let ws' = record ws { session_ids = out; updated_at = now } in
      record {
        distinct = distinct;
        known = known;
        listed =
            list_saved-listed ws' (save_workspace json os d ws') l h
            ∙ ap (λ o. list_sessions_in_workspace (record ws { session_ids = o; updated_at = now }))
                e;
        follows =
            order_session_nodes_follow ws.children (ids ++ others ids (node_ids ws.children))
              (complete-IsDistinct ids (node_ids ws.children) distinct n) n
              (complete_keeps ids (node_ids ws.children) known);
      }

  -- On a well-formed disk, an UpdateSessionOrder that succeeds was given sessions of the workspace,
  -- none of them twice, and returns the workspace's sessions in the given order, the ones that were
  -- not given behind them in the order of the file.
  pub update_session_order-IsReordered :
      (d : Disk B) (w : String) (ids : List String) (now : ℕ) (l : List View × List Warning)
      → IsWell json d
      → (update_session_order json os d w ids now).1 ≡ ok l
      → (ws : Workspace) × (workspace_at json d w ≡ some ws) × IsReordered ws ids now l
  unfolding update_session_order
  update_session_order-IsReordered d w ids now l well h = go (load_workspace json os d w) refl h
    where
      go :
          (r : Result StoreError Workspace)
          → load_workspace json os d w ≡ r
          → (order_in json os d ids now r).1 ≡ ok l
          → (ws : Workspace) × (workspace_at json d w ≡ some ws) × IsReordered ws ids now l
      go (err e) q h = ground (arith, h)
      go (ok ws) q h =
          let at_w = load_workspace-reads json os d w ws q in
          (
            ws,
            at_w,
            ordered-IsReordered d ids now ws l (complete_ordered_ids ids (node_ids ws.children))
                (well w ws at_w).1 refl h,
          )
