-- ===== src/Terminal/Registry/Manage/Json.antt =====
-- The registry over the store in JSON files: what DeleteSession of registry.go and of store.go do
-- together.
use term_bridge.Prelude.{
  ℕ, String, true, ◌≡◌, refl, sym, ap, subst, ◌∙◌, none, Result, ok, err, arith,
}
use term_bridge.Store.Disk.{Json, Os, Disk, StoreError}
use term_bridge.Store.Disk.Saved.{IsFaithful}
use term_bridge.Store.Sessions
use term_bridge.Store.Sessions.Kept.{IsWell, HasNodes, node_at, set_node, delete_session-HasNodes}
use term_bridge.Terminal.Registry.{Registry}
use term_bridge.Terminal.Registry.Store.{json_store}
use term_bridge.Terminal.Registry.Requests.{RegistryError, succeeded}
use term_bridge.Terminal.Registry.Manage.{delete_session}
use term_bridge.Terminal.Registry.Manage.Safety.{
  IsGuarded, refused, called, IsDeletable, delete_session-IsGuarded,
}

succeeded-ok : (r : Result StoreError (Unit {0})) → succeeded r ≡ true → r ≡ ok tt
succeeded-ok (ok tt) h = refl
succeeded-ok (err e) h = ground (arith, h)

abbrev pub IsDeleted :
    {B : Type 0} → Json B → Os → Registry → Disk B → String → String → Disk B → Type 0
IsDeleted json os r d w s e =
    IsDeletable (json_store json os) r d w s × HasNodes json e (set_node (node_at json d) w s none)

-- Over a codec that reads back what it has written, and a disk whose files lie where their
-- workspaces' ids say and hold no session twice: when DeleteSession of the registry succeeds, the
-- store listed the session with a terminal state and it had no runtime; and the disk is again
-- such a disk, without the node of that session and with every other node as it was.
pub delete_session-IsDeleted :
    {B : Type 0} (json : Json B) (os : Os)
    → IsFaithful json
    → (r : Registry) (d e : Disk B) (now : ℕ) (w s : String) → IsWell json d
    → delete_session (json_store json os) r d now w s ≡ (e, ok tt)
    → IsDeleted json os r d w s e
delete_session-IsDeleted json os faithful r d e now w s well =
    go (delete_session (json_store json os) r d now w s)
      (delete_session-IsGuarded (json_store json os) r d now w s)
  where
    go :
        (x : Disk _ × Result RegistryError (Unit {0}))
        → IsGuarded d
            (IsDeletable (json_store json os) r d w s)
            (λ _. Sessions.delete_session json os d now w s)
            x
        → x ≡ (e, ok tt)
        → IsDeleted json os r d w s e
    go x (refused f q) h =
        ground (arith, sym (ap (λ y. succeeded y.1) q) ∙ ap (λ y. succeeded y.1) h)
    go x (called p a b) h =
        let done = succeeded-ok _ (sym b ∙ ap (λ y. succeeded y.1) h) in
        (
          p,
          subst (λ f. HasNodes json f (set_node (node_at json d) w s none))
              (sym a ∙ ap (λ y. y.0) h)
              (delete_session-HasNodes json os faithful d now w s well done),
        )
