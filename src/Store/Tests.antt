-- ===== src/Store/Tests.antt =====
-- The store at a disk with one workspace, on a machine where everything works.
use term_bridge.Prelude.{true, ◌≡◌, refl, List, [], ◌∷◌, ok, pos}
use term_bridge.Session.State.{StateRecord, valid_state}
use term_bridge.Session.Record.{View, ExitRecord}
use term_bridge.Store.Node.{session_node_from_session}
use term_bridge.Store.Disk.{Disk, Warning}
use term_bridge.Store.Sessions.{
  save_session, save_state, delete_session, load_session, save_session_exit_state, load_exit,
  load_state,
}
use term_bridge.Store.Sessions.Lists.{update_session_order}
use term_bridge.Store.Sessions.Kept.{IsWell, node_at}
use term_bridge.Store.Refine.{
  Op, saves_session, saves_state, deletes_session, spec_run, Run, done, next, run_op, store_refines,
}
use term_bridge.Store.RoundTrip.{save_session_round_trip, save_exit_round_trip}
use term_bridge.Store.Example.{
  Page, json, faithful, healthy, session, disk, disk-IsWell, list_or_none,
}

abbrev stopped : StateRecord
stopped = record { schema_version = 1; state = "stopped"; reason = "closed"; updated_at = 30 }

abbrev exit : ExitRecord
exit = record {
  schema_version = 1;
  exit_code = pos 130;
  reason = "user_process_exited";
  forced = true;
  closed = true;
  started_at = 10;
  ended_at = 30;
  wait_error = "";
}

abbrev calls : List Op
calls =
    saves_session (session "s3") ∷ saves_state "w1" "s1" stopped ∷ deletes_session 40 "w1" "s2" ∷ []

abbrev disk1 : Disk Page
disk1 = (run_op json healthy disk (saves_session (session "s3"))).0

abbrev disk2 : Disk Page
disk2 = (run_op json healthy disk1 (saves_state "w1" "s1" stopped)).0

abbrev disk3 : Disk Page
disk3 = (run_op json healthy disk2 (deletes_session 40 "w1" "s2")).0

ran : Run json disk calls disk3
unfolding save_session save_state delete_session session_node_from_session
ran = next healthy refl (next healthy refl (next healthy refl done))

store_refines_example :
    IsWell json disk3 × (node_at json disk3 ≡ spec_run (node_at json disk) calls)
store_refines_example = store_refines json faithful disk disk3 calls disk-IsWell ran

save_session_round_trip_example :
    load_session json healthy (save_session json healthy disk (session "s3")).0 "w1" "s3"
    ≡ ok (session "s3")
unfolding save_session
save_session_round_trip_example =
    save_session_round_trip json faithful healthy healthy disk disk-IsWell (session "s3") refl refl

save_exit_round_trip_example :
    (load_exit json healthy
        (save_session_exit_state json healthy disk 40 (session "s1") exit stopped).0
        "w1"
        "s1"
      ≡ ok exit)
    × (load_state json healthy
          (save_session_exit_state json healthy disk 40 (session "s1") exit stopped).0
          "w1"
          "s1"
        ≡ ok stopped)
unfolding valid_state save_session_exit_state session_node_from_session
save_exit_round_trip_example =
    save_exit_round_trip json faithful healthy healthy disk disk-IsWell 40 (session "s1") exit
      stopped refl refl refl

abbrev reordered : List View × List Warning
reordered = list_or_none (update_session_order json healthy disk "w1" ("s2" ∷ []) 50).1
