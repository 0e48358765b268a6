-- ===== src/Store/Sessions/Kept.antt =====
-- What each operation on a session does to the nodes that the disk holds.
use text.Mathlib.TextPositions.{eq_refl}
use term_bridge.Prelude.{
  ℕ, String, false, ◌&&◌, ◌==◌, eq_iff, ◌≡◌, refl, sym, ap, subst, ◌∙◌, if◌then◌else◌, Option, none,
  some, Result, ok, err, arith, Bool-cases, inl, inr,
}
use term_bridge.Session.Record.{Session}
use term_bridge.Store.Node.{
  Workspace, SessionNode, find_node, node_ids, upsert_session_node, remove_session,
  session_node_from_session,
}
use term_bridge.Store.Node.Children.{
  IsDistinct, IsSameBut, update_node-IsChangedAt, kept, upsert_session_node-IsPutIn,
  remove-IsDistinct, missing, changed, remove_node-find, node_ids-remove_node,
}
use term_bridge.Store.Disk.{Json, Os, Disk, StoreError, load_workspace, save_workspace}
use term_bridge.Store.Disk.Saved.{
  IsFaithful, workspace_at, save_workspace-reads, load_workspace-reads,
}
use term_bridge.Store.Sessions.{
  save_session, save_in, update_session_node, update_node_in, save_children, delete_session,
  delete_in, then_remove,
}

-- The abstract store: the node of each session of each workspace.
abbrev pub Nodes : Type 0
Nodes = String → String → Option SessionNode

abbrev pub find_in : Option Workspace → String → Option SessionNode
find_in none s = none
find_in (some ws) s = find_node ws.children s

abbrev pub node_at : {B : Type 0} → Json B → Disk B → Nodes
node_at json d w s = find_in (workspace_at json d w) s

abbrev pub set_node : Nodes → String → String → Option SessionNode → Nodes
set_node f w s x v t = if w == v && s == t then x else f v t

-- A file lies in the directory of its workspace's id, and no session is in it twice.
abbrev pub IsWell : {B : Type 0} → Json B → Disk B → Type 0
IsWell json d =
    (w : String) (ws : Workspace)
    → workspace_at json d w ≡ some ws
    → (ws.id ≡ w) × IsDistinct (node_ids ws.children)

-- The disk is well-formed and has the given nodes.
abbrev pub HasNodes : {B : Type 0} → Json B → Disk B → Nodes → Type 0
HasNodes json d f = IsWell json d × ((v t : String) → node_at json d v t ≡ f v t)

turn : (x y : String) → (x == y) ≡ false → (y == x) ≡ false
turn x y h = elim (Bool-cases (y == x)) [
  | inl e ↦ ground (arith, subst (λ z. (z == y) ≡ false) (sym ((eq_iff y x).0 e)) h, eq_refl y)
  | inr n ↦ n
]

some_same : {A : Type 0} (x y : A) → some x ≡ some y → x ≡ y
some_same x y h = ground (arith, h)

module _ {B : Type 0} (json : Json B) (os : Os) (faithful : IsFaithful json) where
  saved-IsWell :
      (d : Disk B) (ws : Workspace)
      → IsDistinct (node_ids ws.children)
      → IsWell json d
      → (save_workspace json os d ws).1 ≡ ok tt
      → IsWell json (save_workspace json os d ws).0
  saved-IsWell d ws distinct well h v u e =
      let (same, others) = save_workspace-reads json os faithful d ws h in
      elim (Bool-cases (v == ws.id)) [
        | inl y ↦
            let p : v ≡ ws.id = (eq_iff v ws.id).0 y in
            let q : ws ≡ u =
              some_same ws u
                (sym same ∙ ap (workspace_at json (save_workspace json os d ws).0) (sym p) ∙ e) in
            (
              subst (λ x. x.id ≡ v) q (sym p),
              subst (λ x. IsDistinct (node_ids x.children)) q distinct,
            )
        | inr n ↦ well v u (sym (others v n) ∙ e)
      ]

  saved-node_at :
      (d : Disk B) (ws : Workspace)
      → (save_workspace json os d ws).1 ≡ ok tt
      → (v t : String)
      → node_at json (save_workspace json os d ws).0 v t
        ≡ (if ws.id == v then find_node ws.children t else node_at json d v t)
  saved-node_at d ws h v t =
      let (same, others) = save_workspace-reads json os faithful d ws h in
      elim (Bool-cases (ws.id == v)) [
        | inl y ↦
            let p : ws.id ≡ v = (eq_iff ws.id v).0 y in
            rw y (
              ap (λ o. find_in o t)
                (ap (workspace_at json (save_workspace json os d ws).0) (sym p) ∙ same))
        | inr n ↦ rw n (ap (λ o. find_in o t) (others v (turn ws.id v n)))
      ]

  -- A workspace whose nodes differ from the saved ones at one id only.
  saved-HasNodes :
      (d : Disk B) (w s : String) (old new : Workspace) (x : Option SessionNode)
      → IsWell json d
      → workspace_at json d w ≡ some old
      → new.id ≡ old.id
      → IsDistinct (node_ids new.children)
      → find_node new.children s ≡ x
      → IsSameBut s old.children new.children
      → (save_workspace json os d new).1 ≡ ok tt
      → HasNodes json (save_workspace json os d new).0 (set_node (node_at json d) w s x)
  saved-HasNodes d w s old new x well at_w id distinct found_x others h =
      let named : new.id ≡ w = id ∙ (well w old at_w).0 in
      (
        saved-IsWell d new distinct well h,
        λ v t.
            saved-node_at d new h v t
            ∙ ap (λ i. if i == v then find_node new.children t else node_at json d v t) named
            ∙ agree v t,
      )
    where
      agree :
          (v t : String)
          → (if w == v then find_node new.children t else node_at json d v t)
            ≡ set_node (node_at json d) w s x v t
      agree v t = elim (Bool-cases (w == v)) [
        | inr n ↦ rw n
        | inl y ↦ elim (Bool-cases (s == t)) [
          | inl z ↦ rw (y, z) (subst (λ u. find_node new.children u ≡ x) ((eq_iff s t).0 z) found_x)
          | inr n ↦
              rw (y, n)
                (others t n
                  ∙ ap (λ o. find_in o t) (sym at_w ∙ ap (workspace_at json d) ((eq_iff w v).0 y)))
        ]
      ]

  -- updateSessionNode, when it succeeds, changes the node and nothing else.
  pub update_session_node-HasNodes :
      (d : Disk B) (w s : String) (change : SessionNode → SessionNode)
      → ((c : SessionNode) → (change c).id ≡ c.id)
      → IsWell json d
      → (update_session_node json os d w s change).1 ≡ ok tt
      → (c : SessionNode) × (node_at json d w s ≡ some c)
        × HasNodes json
            (update_session_node json os d w s change).0
            (set_node (node_at json d) w s (some (change c)))
  unfolding update_session_node
  update_session_node-HasNodes d w s change keeps well h = go (load_workspace json os d w) refl h
    where
      go :
          (r : Result StoreError Workspace)
          → load_workspace json os d w ≡ r
          → (update_node_in json os d s change r).1 ≡ ok tt
          → (c : SessionNode) × (node_at json d w s ≡ some c)
            × HasNodes json
                (update_node_in json os d s change r).0
                (set_node (node_at json d) w s (some (change c)))
      go (err e) q h = ground (arith, h)
      go (ok ws) q h =
          let at_w = load_workspace-reads json os d w ws q in
          elim (update_node-IsChangedAt change keeps ws.children s) [
            | missing a _ ↦
                ground (arith, subst (λ u. (save_children json os d ws u).1 ≡ ok tt) a h)
            | changed cs' c a f f' o i ↦ (
              c,
              ap (λ o. find_in o s) at_w ∙ f,
              subst
                  (λ u.
                    HasNodes json (save_children json os d ws u).0
                      (set_node (node_at json d) w s (some (change c))))
                  (sym a)
                  (saved-HasNodes d w s ws
                    (record ws { children = cs'; updated_at = (change c).updated_at })
                    (some (change c)) well at_w refl (subst IsDistinct (sym i) (well w ws at_w).1)
                    f' o (subst (λ u. (save_children json os d ws u).1 ≡ ok tt) a h)),
            )
          ]

  upserted-HasNodes :
      (d : Disk B) (w : String) (ws : Workspace) (n : SessionNode)
      → IsWell json d
      → workspace_at json d w ≡ some ws
      → (u : ℕ)
      → (save_workspace json os d (upsert_session_node (record ws { updated_at = u }) n)).1 ≡ ok tt
      → HasNodes json
          (save_workspace json os d (upsert_session_node (record ws { updated_at = u }) n)).0
          (set_node (node_at json d) w n.id (some (kept (node_at json d w n.id) n)))
  upserted-HasNodes d w ws n well at_w u h =
      let ws' = record ws { updated_at = u } in
      let p = upsert_session_node-IsPutIn ws' n (well w ws at_w).1 in
      saved-HasNodes d w n.id ws (upsert_session_node ws' n) (some (kept (node_at json d w n.id) n))
        well at_w p.same_id p.distinct
        (p.here ∙ ap (λ o. some (kept (find_in o n.id) n)) (sym at_w)) p.elsewhere h

  -- SaveSession, when it succeeds, puts the session's node in the place of the one with its id, of
  -- which it keeps the state and the run, or adds it; and changes nothing else.
  pub save_session-HasNodes :
      (d : Disk B) (v : Session)
      → IsWell json d
      → (save_session json os d v).1 ≡ ok tt
      → HasNodes json (save_session json os d v).0 (
          set_node
            (node_at json d)
            v.workspace_id
            v.id
            (some (kept (node_at json d v.workspace_id v.id) (session_node_from_session v))))
  unfolding save_session session_node_from_session
  save_session-HasNodes d v well h = go (load_workspace json os d v.workspace_id) refl h
    where
      go :
          (r : Result StoreError Workspace)
          → load_workspace json os d v.workspace_id ≡ r
          → (save_in json os d v r).1 ≡ ok tt
          → HasNodes json (save_in json os d v r).0 (
              set_node
                (node_at json d)
                v.workspace_id
                v.id
                (some (kept (node_at json d v.workspace_id v.id) (session_node_from_session v))))
      go (err e) q h = ground (arith, h)
      go (ok ws) q h =
          upserted-HasNodes d v.workspace_id ws (session_node_from_session v) well
            (load_workspace-reads json os d v.workspace_id ws q) v.updated_at h

  then_remove-ok :
      (x : Disk B × Result StoreError (Unit {0}))
      → (then_remove json os x).1 ≡ ok tt
      → (x.1 ≡ ok tt) × ((then_remove json os x).0 ≡ x.0)
  then_remove-ok (d, err e) h = ground (arith, h)
  then_remove-ok (d, ok _) h = (refl, refl)

  -- DeleteSession, when it succeeds, takes the session's node out and changes nothing else.
  pub delete_session-HasNodes :
      (d : Disk B) (now : ℕ) (w s : String)
      → IsWell json d
      → (delete_session json os d now w s).1 ≡ ok tt
      → HasNodes json (delete_session json os d now w s).0 (set_node (node_at json d) w s none)
  unfolding delete_session remove_session
  delete_session-HasNodes d now w s well h = go (load_workspace json os d w) refl h
    where
      go :
          (r : Result StoreError Workspace)
          → load_workspace json os d w ≡ r
          → (delete_in json os d now s r).1 ≡ ok tt
          → HasNodes json (delete_in json os d now s r).0 (set_node (node_at json d) w s none)
      go (err e) q h = ground (arith, h)
      go (ok ws) q h =
          let at_w = load_workspace-reads json os d w ws q in
          let new = remove_session (record ws { updated_at = now }) s in
          let distinct = (well w ws at_w).1 in
          let (f, o) = remove_node-find ws.children s distinct in
          let (ok', same) = then_remove-ok (save_workspace json os d new) h in
          subst (λ e. HasNodes json e (set_node (node_at json d) w s none)) (sym same)
            (saved-HasNodes d w s ws new none well at_w refl
              (subst IsDistinct (sym (node_ids-remove_node ws.children s))
                (remove-IsDistinct (node_ids ws.children) s distinct))
              f o ok')
