-- ===== src/Terminal/Registry/Manage/Tests.antt =====
-- The registry over a disk with two sessions, of which one has ended.
use term_bridge.Prelude.{refl, none, some, [], ◌∷◌}
use term_bridge.Session.State.{StateRecord, valid_state}
use term_bridge.Store.Node.{session_node_from_session, session_from_workspace_node}
use term_bridge.Store.Disk.{Disk}
use term_bridge.Store.Sessions.{save_state}
use term_bridge.Store.Sessions
use term_bridge.Store.Sessions.Lists.{list_sessions_by_workspace_id}
use term_bridge.Store.Sessions.Kept.{IsWell}
use term_bridge.Store.Refine.{next, done, saves_state, run_op, store_refines}
use term_bridge.Store.Example.{Page, json, faithful, healthy, disk, disk-IsWell}
use term_bridge.Terminal.Registry.{new_registry, add_runtime}
use term_bridge.Terminal.Registry.Store.{RuntimeStore, json_store}
use term_bridge.Terminal.Registry.Requests.{UpdateSessionReq}
use term_bridge.Terminal.Registry.Manage.{
  delete_session, delete_workspace, update_session, store_update,
}
use term_bridge.Terminal.Registry.Manage.Safety.{
  IsGuarded, IsUnused, IsEditable, delete_workspace-IsGuarded, update_session-IsGuarded,
}
use term_bridge.Terminal.Registry.Manage.Json.{IsDeleted, delete_session-IsDeleted}

abbrev stopped : StateRecord
stopped = record { schema_version = 1; state = "stopped"; reason = "closed"; updated_at = 30 }

abbrev running : StateRecord
running = record { schema_version = 1; state = "running"; reason = ""; updated_at = 20 }

abbrev disk1 : Disk Page
disk1 = (run_op json healthy disk (saves_state "w1" "s1" stopped)).0

disk1-IsWell : IsWell json disk1
unfolding save_state session_node_from_session valid_state
disk1-IsWell =
    (store_refines json faithful disk disk1 (saves_state "w1" "s1" stopped ∷ []) disk-IsWell
      (next healthy refl done)).0

abbrev store : RuntimeStore (Disk Page)
store = json_store json healthy

abbrev disk2 : Disk Page
disk2 = (Sessions.delete_session json healthy disk1 40 "w1" "s1").0

delete_session-IsDeleted_example : IsDeleted json healthy new_registry disk1 "w1" "s1" disk2
unfolding delete_session save_state list_sessions_by_workspace_id session_node_from_session
    valid_state session_from_workspace_node new_registry Sessions.delete_session
delete_session-IsDeleted_example =
    delete_session-IsDeleted json healthy faithful new_registry disk1 disk2 40 "w1" "s1"
      disk1-IsWell refl

abbrev request : UpdateSessionReq
request = record {
  name = some " new ";
  command = some "top";
  command_source = none;
  shortcut_id_snapshot = none;
  shortcut_name_snapshot = none;
}

delete_workspace-IsGuarded_example :
    IsGuarded disk1
      (IsUnused store (add_runtime new_registry "s1") disk1 "w1")
      (λ p. store.delete_workspace disk1 p.0.id 40)
      (delete_workspace store (add_runtime new_registry "s1") disk1 40 "w1")
delete_workspace-IsGuarded_example =
    delete_workspace-IsGuarded store (add_runtime new_registry "s1") disk1 40 "w1"

update_session-IsGuarded_example :
    IsGuarded disk1
      (IsEditable store disk1 "w1" "s1" request)
      (λ _. store_update store disk1 50 "w1" "s1" request)
      (update_session store disk1 50 none "w1" "s1" request)
update_session-IsGuarded_example = update_session-IsGuarded store disk1 50 none "w1" "s1" request
