-- ===== src/Terminal/Control.antt =====
-- Detaching, control and broadcasts: the other methods of SessionRuntime in
-- internal/agent/application/task/terminal/runtime.go, and Client.Detach of registry.go.
pub mod Detach
pub mod Steps
pub mod Safety
mod Tests
use term_bridge.Prelude.{
  ℕ, zero, suc, ◌+◌, String, Bool, true, false, not, ◌&&◌, ◌||◌, Option, none, some, List, [], ◌∷◌,
  ◌++◌, length, ltb, ◌==◌, if◌then◌else◌, Result, ok, err, ℤ,
}
use term_bridge.Prelude.Text.{contains_text}
use term_bridge.Protocol.Terminal.{
  ServerControlMessage, empty_message, type_state, control_role_controller, control_role_observer,
  reason_control_granted, reason_control_lost, reason_control_auto_granted, max_binary_frame_bytes,
  validate_size,
}
use term_bridge.Process.Size.{TerminalSize, same_size}
use term_bridge.Process.Exit.{stop_close}
use term_bridge.Terminal.Outbound.{Outbound, text, binary}
use term_bridge.Terminal.Client.{Client}
use term_bridge.Session.State.{state_running}
use term_bridge.Terminal.Runtime.{
  Runtime, RuntimeError, not_controller, frame_too_large, pty_failed, invalid_size, detached,
  attachment_text, put, remove_client_order, is_controller, enqueue_to, state_message,
  enqueue_control_role, close_client, is_empty,
}

-- The next controller and the client to tell of it: the client that attached first.
unfoldable pub promote : List String → List String → String × Option String
promote clients [] = ("", none)
promote clients (next ∷ order) = (next, if contains_text clients next then some next else none)

-- detachClient while it holds the mutexes, and the closing of the queue.
unfoldable pub detach_locked : Runtime → String → Runtime × Option String
unfolding promote is_empty
detach_locked r id =
    let clients' = remove_client_order r.clients id in
    let order' = remove_client_order r.client_order id in
    let (controller, promoted) =
      if is_controller r id then promote clients' order' else (r.controller_client_id, none) in
    let last = is_empty clients' && not r.closed in
    (
      record r {
        clients = clients';
        client_order = order';
        controller_client_id = if last then "" else controller;
        attachment = if last then detached else r.attachment;
        objects = if contains_text r.clients id then close_client r.objects id else r.objects;
      },
      promoted,
    )

abbrev pub reason_client_queue_full : String
reason_client_queue_full = "client_queue_full"

-- The loop of publishBinary and broadcastText: a client whose queue is full is detached.
unfoldable pub send_loop : (Runtime → String → Runtime) → Runtime → List String → Outbound → Runtime
send_loop detach r [] o = r
send_loop detach r (id ∷ ids) o =
    let (r', sent) = enqueue_to r id o in send_loop detach (if sent then r' else detach r' id) ids o

-- Each detach takes a client out of the map, so the number of clients bounds the depth.
abbrev pub detach_fuel : Runtime → ℕ
detach_fuel r = suc (length r.clients)

module _ (snapshot : List String → List String) where
  -- What detachClient does after it has released the mutexes.
  unfoldable pub announce :
      (Runtime → String → Runtime) → Runtime → Option String → String → Runtime
  unfolding send_loop
  announce detach r (some next) reason =
      enqueue_control_role r next control_role_controller reason_control_auto_granted
  announce detach r none reason =
      if r.controller_client_id == ""
      then send_loop detach r (snapshot r.clients) (text (state_message r "" reason))
      else r

  -- Client.Detach. A detach inside a broadcast inside a detach is one level of fuel deeper.
  unfoldable pub detach : ℕ → String → Runtime → String → Runtime
  unfolding announce
  detach zero reason r id = r
  detach (suc f) reason r id =
      let once = record (r.objects id) { once_done = true } in
      let (r', promoted) = detach_locked (record r { objects = put r.objects id once }) id in
      let later = announce (detach f reason_client_queue_full) r' promoted reason in
      if (r.objects id).once_done then r else later

  -- Client.Detach for the reason that the caller gives.
  unfoldable pub detach_client : Runtime → String → String → Runtime
  unfolding detach
  detach_client r id reason = detach (detach_fuel r) reason r id

  -- publishBinary and broadcastText.
  unfoldable pub broadcast : Runtime → Outbound → Runtime
  unfolding send_loop
  broadcast r o =
      send_loop (detach (detach_fuel r) reason_client_queue_full) r (snapshot r.clients) o

unfoldable pub grant : Runtime → String → Runtime
grant r id = enqueue_control_role r id control_role_controller reason_control_granted

-- Control passes from `old` to `id`, and both are told.
unfoldable pub transfer : Runtime → String → String → Runtime
unfolding grant
transfer r old id =
    let r' = grant (record r { controller_client_id = id }) id in
    if not (old == "") && contains_text r.clients old
    then enqueue_control_role r' old control_role_observer reason_control_lost
    else r'

unfoldable pub take_control : Runtime → String → Runtime
unfolding grant transfer
take_control r id =
    if not (contains_text r.clients id) || r.closed
    then r
    else if r.controller_client_id == id
    then grant r id
    else transfer r r.controller_client_id id

-- The outcome of a call of the PTY is the argument `pty_ok`.
unfoldable pub write_input : Runtime → Bool → List ℕ → Runtime × Result RuntimeError (Unit {0})
write_input r pty_ok bytes =
    if ltb max_binary_frame_bytes (length bytes)
    then (r, err frame_too_large)
    else if pty_ok
    then (record r { pty_input = r.pty_input ++ bytes ∷ [] }, ok tt)
    else (r, err pty_failed)

unfoldable pub write_input_from :
    Runtime → Bool → String → List ℕ → Runtime × Result RuntimeError (Unit {0})
unfolding write_input
write_input_from r pty_ok id bytes =
    if is_controller r id then write_input r pty_ok bytes else (r, err not_controller)

unfoldable pub apply_size : Runtime → Bool → TerminalSize → Runtime × Result RuntimeError (Unit {0})
apply_size r pty_ok size =
    if same_size r.current size
    then (r, ok tt)
    else if pty_ok
    then (record r { pty_sizes = r.pty_sizes ++ size ∷ []; current = size }, ok tt)
    else (r, err pty_failed)

unfoldable pub resize : Runtime → Bool → ℤ → ℤ → Runtime × Result RuntimeError (Unit {0})
unfolding apply_size
resize r pty_ok cols rows = elim (validate_size cols rows) [
  | err e ↦ (r, err invalid_size)
  | ok _ ↦ apply_size r pty_ok (record { cols = cols; rows = rows })
]

-- A size from an observer is dropped without an error.
unfoldable pub resize_from :
    Runtime → Bool → String → ℤ → ℤ → Runtime × Result RuntimeError (Unit {0})
unfolding resize
resize_from r pty_ok id cols rows =
    if is_controller r id then resize r pty_ok cols rows else (r, ok tt)

-- The loop of closeSession: a full queue drops the frame.
unfoldable pub tell_all : Runtime → List String → Outbound → Runtime
tell_all r [] o = r
tell_all r (id ∷ ids) o = tell_all (enqueue_to r id o).0 ids o

module _ (snapshot : List String → List String) where
  -- closeSession up to the PTY's Close, whose failure is its only error; on success the caller then
  -- waits for the end of the session. A second call only waits.
  unfoldable pub close_session : Runtime → Bool → String → Runtime × Result RuntimeError (Unit {0})
  unfolding tell_all
  close_session r pty_ok reason =
      let notice = record empty_message {
        type = type_state;
        lifecycle_state = state_running;
        attachment_state = attachment_text detached;
        reason = reason;
      } in
      let r' =
        tell_all (record r { closed = true; stop_mode = stop_close }) (snapshot r.clients)
          (text notice) in
      if r.closed then (r, ok tt) else (r', if pty_ok then ok tt else err pty_failed)

-- waitLoop after the process has ended, before it saves the exit.
unfoldable pub wait_ended : Runtime → Runtime
wait_ended r = record r { closed = true; attachment = detached }

-- The loop of closeClients. The sync.Once of a client is used up.
unfoldable pub close_all : (String → Client) → List String → String → Client
close_all objects [] = objects
close_all objects (id ∷ ids) =
    let c = objects id in
    let closed = record (close_client objects id id) { once_done = true } in
    close_all (if c.once_done then objects else put objects id closed) ids

module _ (snapshot : List String → List String) where
  unfoldable pub close_clients : Runtime → Runtime
  unfolding close_all
  close_clients r = record r { objects = close_all r.objects (snapshot r.clients); clients = [] }
