-- ===== src/Terminal/Control/Tests.antt =====
-- Two clients attach to a session; the first controls it.
use term_bridge.Prelude.{
  String, ◌≡◌, ◌≢◌, refl, ap, true, List, length, arith, ◌==◌, pos, if◌then◌else◌,
}
use term_bridge.Prelude.Text.{contains_text}
use term_bridge.Protocol.Terminal.{validate_size}
use term_bridge.Process.Size.{TerminalSize, or_default}
use term_bridge.Terminal.Outbound.{outbound_size}
use term_bridge.Terminal.Client.{Limits, enqueue, can_enqueue}
use term_bridge.Terminal.Replay.{ReplayConfig, missing, enqueue_replay}
use term_bridge.Terminal.Runtime.{
  Runtime, Attaching, new_session_runtime, put, reserve, reservation, attach_reserve, attach_replay,
  attach_commit, remove_client_order, is_controller, enqueue_control_role,
}
use term_bridge.Terminal.Runtime.Inv.{Inv}
use term_bridge.Terminal.Control.{detach_client, detach_locked, resize_from}
use term_bridge.Terminal.Control.Detach.{Idle}
use term_bridge.Terminal.Control.Steps.{
  Reach, here, next, reserves, replays, commits, runtime_invariant,
}
use term_bridge.Terminal.Control.Safety.{detach_promotes_oldest, first_id}

abbrev limits : Limits
limits = record { client_queue_size = 8; client_queue_bytes = 4096 }

abbrev replay : ReplayConfig
replay = record { replay_max_bytes = 100; replay_chunk_bytes = 50 }

abbrev size : TerminalSize
size = record { cols = pos 80; rows = pos 25 }

abbrev in_order : List String → List String
in_order xs = xs

abbrev fresh : Runtime
fresh = new_session_runtime "s" "w" limits replay size

abbrev replayed : Attaching → Attaching
replayed a = record a { replayed = true }

-- The three sections of an attach.
abbrev attach_one : Runtime → String → Runtime
attach_one r id =
    let a = reservation r id in
    (attach_commit (attach_replay (reserve r id) a true missing).0 (replayed a)).0

abbrev one : Runtime
one = attach_one fresh "a"

abbrev two : Runtime
two = attach_one one "b"

Reach-one : Reach in_order fresh one
unfolding new_session_runtime attach_reserve reserve put attach_replay attach_commit enqueue_replay
    enqueue can_enqueue outbound_size contains_text
Reach-one =
    next
      (next (next here (reserves "a" refl refl refl refl))
        (replays (reservation fresh "a") true missing refl refl))
      (commits (replayed (reservation fresh "a")) refl refl)

Reach-two : Reach in_order fresh two
unfolding new_session_runtime attach_reserve reserve put attach_replay attach_commit enqueue_replay
    enqueue can_enqueue outbound_size contains_text
Reach-two =
    next
      (next (next Reach-one (reserves "b" refl refl refl refl))
        (replays (reservation one "b") true missing refl refl))
      (commits (replayed (reservation one "b")) refl refl)

runtime_invariant_example : Inv two
runtime_invariant_example = runtime_invariant in_order "s" "w" limits replay size Reach-two

two-Idle : Idle two
unfolding new_session_runtime reserve put attach_replay attach_commit enqueue_replay enqueue
    can_enqueue outbound_size
two-Idle = record {
  inv = runtime_invariant in_order "s" "w" limits replay size Reach-two;
  idle = refl;
}

resize_changes : (resize_from two true "a" (pos 100) (pos 30)).0.pty_sizes ≢ two.pty_sizes
unfolding new_session_runtime reserve put attach_replay attach_commit enqueue_replay enqueue
    can_enqueue outbound_size resize_from is_controller validate_size or_default
resize_changes e = omega (arith, ap (length {A = TerminalSize}) e)

detach_promotes_oldest_example :
    ((detach_client in_order two "a" "gone").clients ≡ remove_client_order two.client_order "a")
    × ((detach_client in_order two "a" "gone").controller_client_id ≡ (
        if two.controller_client_id == "a"
        then first_id (remove_client_order two.client_order "a")
        else two.controller_client_id))
unfolding new_session_runtime reserve put attach_replay attach_commit enqueue_replay enqueue
    can_enqueue outbound_size contains_text
detach_promotes_oldest_example = detach_promotes_oldest in_order refl two "a" "gone" two-Idle refl

promoted : (detach_client in_order two "a" "gone").controller_client_id ≡ "b"
unfolding detach_client new_session_runtime reserve put attach_replay attach_commit enqueue_replay
    enqueue can_enqueue outbound_size contains_text detach_locked remove_client_order is_controller
    enqueue_control_role
promoted = refl
