-- ===== src/Terminal/Runtime.antt =====
-- SessionRuntime in internal/agent/application/task/terminal/runtime.go: one live session with its
-- clients and the client that controls the terminal.
--
-- A definition is what runs under one hold of the mutexes. `attaching` stands for the hold of
-- outputMu and controlMu by an attach between its three sections. Client objects live in `objects`
-- by their ids; `clients` are the keys of the map of clients. Go does not fix the order in which a
-- map is walked: it is the parameter `snapshot`.
pub mod Order
pub mod Inv
pub mod Attach
use term_bridge.Prelude.{
  ℕ, zero, suc, ◌+◌, String, Bool, true, false, not, ◌&&◌, ◌||◌, Option, none, some, List, [], ◌∷◌,
  ◌++◌, length, ltb, ◌==◌, if◌then◌else◌, Result, ok, err,
}
use term_bridge.Prelude.Text.{contains_text}
use term_bridge.Protocol.Terminal.{
  ServerControlMessage, empty_message, type_state, control_role_controller, control_role_observer,
  reason_control_granted, reason_control_lost, reason_control_auto_granted, max_binary_frame_bytes,
  validate_size,
}
use term_bridge.Process.Size.{TerminalSize, or_default}
use term_bridge.Process.Exit.{StopMode, stop_none, stop_close}
use term_bridge.Terminal.Outbound.{Outbound, text, binary}
use term_bridge.Terminal.Client.{Client, Limits, new_client, enqueue, close_queue}
use term_bridge.Session.State.{state_running}
use term_bridge.Terminal.Replay.{
  ReplayConfig, HistoryFile, ReplayError, enqueue_replay, attachment_attached,
}

pub data Attachment : Type 0 where
  unattached attached detached : Attachment

abbrev pub attachment_text : Attachment → String
attachment_text unattached = "unattached"
attachment_text attached = "attached"
attachment_text detached = "detached"

-- An attach that has reserved its client, and whether its replay is queued.
pub record Attaching : Type 0 where
  pub id : String
  pub role : String
  pub replayed : Bool

pub record Runtime : Type 0 where
  pub session_id : String
  pub workspace_id : String
  pub limits : Limits
  pub replay : ReplayConfig
  pub objects : String → Client
  pub clients : List String
  pub client_order : List String
  pub controller_client_id : String
  pub attachment : Attachment
  pub closed : Bool
  pub stop_mode : StopMode
  pub current : TerminalSize
  pub attaching : Option Attaching
  -- What the PTY has been given so far, oldest first.
  pub pty_input : List (List ℕ)
  pub pty_sizes : List TerminalSize

-- newSessionRuntime, with the limits of its registry.
unfoldable pub new_session_runtime :
    String → String → Limits → ReplayConfig → TerminalSize → Runtime
new_session_runtime session workspace limits replay initial = record {
  session_id = session;
  workspace_id = workspace;
  limits = limits;
  replay = replay;
  objects = λ id. new_client;
  clients = [];
  client_order = [];
  controller_client_id = "";
  attachment = unattached;
  closed = false;
  stop_mode = stop_none;
  current = or_default initial;
  attaching = none;
  pty_input = [];
  pty_sizes = [];
}

pub data RuntimeError : Type 0 where
  session_closed not_controller frame_too_large pty_failed invalid_size : RuntimeError
  replay_failed : ReplayError → RuntimeError

-- A write to the object with this id.
unfoldable pub put : (String → Client) → String → Client → String → Client
put objects id c j = if id == j then c else objects j

-- Both `removeClientOrder` and the deletion of a key from the map.
unfoldable pub remove_client_order : List String → String → List String
remove_client_order [] id = []
remove_client_order (x ∷ xs) id =
    let rest = remove_client_order xs id in if x == id then rest else x ∷ rest

unfoldable pub is_controller : Runtime → String → Bool
is_controller r id = r.controller_client_id == id

unfoldable pub enqueue_to : Runtime → String → Outbound → Runtime × Bool
enqueue_to r id o =
    let (c, sent) = enqueue r.limits (r.objects id) o in
    (record r { objects = put r.objects id c }, sent)

abbrev pub state_message : Runtime → String → String → ServerControlMessage
state_message r role reason = record empty_message {
  type = type_state;
  lifecycle_state = state_running;
  attachment_state = attachment_text r.attachment;
  control_role = role;
  reason = reason;
}

-- A full or closed queue drops the frame.
unfoldable pub enqueue_control_role : Runtime → String → String → String → Runtime
unfolding enqueue_to
enqueue_control_role r id role reason = (enqueue_to r id (text (state_message r role reason))).0

abbrev pub reservation : Runtime → String → Attaching
reservation r id = record {
  id = id;
  role = if r.controller_client_id == "" then control_role_controller else control_role_observer;
  replayed = false;
}

-- The new client controls the terminal if nobody does.
unfoldable pub reserve : Runtime → String → Runtime
reserve r id = record r {
  objects = put r.objects id new_client;
  controller_client_id = if r.controller_client_id == "" then id else r.controller_client_id;
  attaching = some (reservation r id);
}

-- The first section of attach: the client is made.
unfoldable pub attach_reserve : Runtime → String → Result RuntimeError Runtime
attach_reserve r id = if r.closed then err session_closed else ok (reserve r id)

abbrev pub close_client : (String → Client) → String → String → Client
close_client objects id = put objects id (close_queue (objects id))

-- The reservation is taken back.
unfoldable pub drop_reservation : Runtime → String → Runtime
drop_reservation r id = record r {
  controller_client_id = if is_controller r id then "" else r.controller_client_id;
  objects = close_client r.objects id;
  attaching = none;
}

unfoldable pub is_empty {ℓ} : {A : Type ℓ} → List A → Bool
is_empty [] = true
is_empty (x ∷ xs) = false

-- A replay that fails.
unfoldable pub attach_abort : Runtime → String → Runtime
unfolding drop_reservation is_empty
attach_abort r id =
    let r' = drop_reservation r id in
    record r' { attachment = if is_empty r.clients && not r.closed then detached else r.attachment }

unfoldable pub after_replay :
    Runtime → Attaching → Result ReplayError (Unit {0}) → Runtime × Result RuntimeError (Unit {0})
unfolding attach_abort
after_replay r a (err e) = (attach_abort r a.id, err (replay_failed e))
after_replay r a (ok _) = (record r { attaching = some (record a { replayed = true }) }, ok tt)

-- The second section: the frames of the replay are queued.
unfoldable pub attach_replay :
    Runtime → Attaching → Bool → HistoryFile → Runtime × Result RuntimeError (Unit {0})
unfolding after_replay
attach_replay r a flushed file =
    let (c, result) =
      enqueue_replay r.limits r.replay r.session_id r.workspace_id a.role flushed file
        (r.objects a.id) in
    after_replay (record r { objects = put r.objects a.id c }) a result

unfoldable pub go_live : Runtime → Attaching → Runtime
go_live r a = record r {
  clients = r.clients ++ a.id ∷ [];
  client_order = r.client_order ++ a.id ∷ [];
  attachment = attached;
  attaching = none;
}

-- The third section: the client goes live, unless the session was closed meanwhile.
unfoldable pub attach_commit : Runtime → Attaching → Runtime × Result RuntimeError (Unit {0})
unfolding drop_reservation go_live
attach_commit r a =
    if r.closed then (drop_reservation r a.id, err session_closed) else (go_live r a, ok tt)
