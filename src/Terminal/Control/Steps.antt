-- ===== src/Terminal/Control/Steps.antt =====
-- The runtime of runtime.go under any interleaving of its callers: a step is what one of them does
-- under one hold of the mutexes; a detach is also there in its parts, which others may separate. The
-- end of the session by closeClients is not a step: it follows the last one, and Safety has the
-- state after it.
use term_bridge.Prelude.{
  ℕ, String, ◌≡◌, refl, sym, ◌∙◌, Bool, true, false, not, ◌&&◌, ◌||◌, Option, none, some, List, [],
  ◌∷◌, arith, ◌==◌, eq_iff, if◌then◌else◌, if_both, if_first, ok, ℤ,
}
use mathlib.Core.Bool.{false≢true}
use term_bridge.Prelude.Text.{contains_text}
use term_bridge.Process.Exit.{stop_close}
use term_bridge.Process.Size.{TerminalSize}
use term_bridge.Protocol.Terminal.{
  control_role_controller, control_role_observer, reason_control_granted, reason_control_lost,
}
use term_bridge.Terminal.Outbound.{Outbound}
use term_bridge.Terminal.Client.{Client, Limits, mark_sent, receive, receive_from}
use term_bridge.Terminal.Client.Accounting.{finish_send}
use term_bridge.Terminal.Replay.{HistoryFile, ReplayConfig}
use term_bridge.Terminal.Runtime.{
  Runtime, Attaching, put, enqueue_to, enqueue_control_role, new_session_runtime, attach_reserve,
  attach_replay, attach_commit,
}
use term_bridge.Terminal.Runtime.Inv.{
  Inv, IsControlled, enqueue_to-Inv, enqueue_control_role-Inv, objects-Inv,
}
use term_bridge.Terminal.Runtime.Attach.{attach_reserve-Inv, attach_replay-Inv, attach_commit-Inv}
use term_bridge.Terminal.Control.{
  detach_locked, detach_client, broadcast, take_control, grant, transfer, write_input_from,
  write_input, resize_from, resize, apply_size, close_session, tell_all, wait_ended,
}
use term_bridge.Terminal.Control.Detach.{detach_locked-Idle, detach_client-Idle, broadcast-Idle}

module _ (snapshot : List String → List String) where
  pub data Step : Runtime → Runtime → Type 0 where
    -- A new id is a name that no client has.
    reserves :
        {r r' : Runtime} (id : String)
        → r.attaching ≡ none
        → contains_text r.clients id ≡ false
        → (id == "") ≡ false
        → attach_reserve r id ≡ ok r'
        → Step r r'
    replays :
        {r : Runtime} (a : Attaching) (flushed : Bool) (file : HistoryFile)
        → r.attaching ≡ some a
        → a.replayed ≡ false
        → Step r (attach_replay r a flushed file).0
    commits :
        {r : Runtime} (a : Attaching)
        → r.attaching ≡ some a
        → a.replayed ≡ true
        → Step r (attach_commit r a).0
    detaches :
        {r : Runtime} (id reason : String)
        → r.attaching ≡ none
        → Step r (detach_client snapshot r id reason)
    -- The parts of a detach, which other callers may separate: the client leaves, and afterwards the
    -- promoted client is told, or the others by an output.
    leaves :
        {r : Runtime} (id : String)
        → r.attaching ≡ none
        → Step r
            (detach_locked
              (record r { objects = put r.objects id (record (r.objects id) { once_done = true }) })
              id).0
    tells :
        {r : Runtime} (id role reason : String)
        → r.attaching ≡ none
        → Step r (enqueue_control_role r id role reason)
    takes : {r : Runtime} (id : String) → r.attaching ≡ none → Step r (take_control r id)
    inputs :
        {r : Runtime} (pty_ok : Bool) (id : String) (bytes : List ℕ)
        → r.attaching ≡ none
        → Step r (write_input_from r pty_ok id bytes).0
    resizes :
        {r : Runtime} (pty_ok : Bool) (id : String) (cols rows : ℤ)
        → r.attaching ≡ none
        → Step r (resize_from r pty_ok id cols rows).0
    outputs : {r : Runtime} (o : Outbound) → r.attaching ≡ none → Step r (broadcast snapshot r o)
    -- These two hold only the mutex of the fields, so they may fall into an attach.
    closes :
        {r : Runtime} (pty_ok : Bool) (reason : String)
        → Step r (close_session snapshot r pty_ok reason).0
    ends : {r : Runtime} → Step r (wait_ended r)
    -- The loop of a connection takes a frame out of its queue, or has sent it.
    receives :
        {r : Runtime} (id : String)
        → Step r (record r { objects = put r.objects id (receive (r.objects id)).0 })
    sends :
        {r : Runtime} (id : String)
        → Step r (record r {
          objects = put r.objects id (finish_send (r.objects id) (r.objects id).in_flight);
        })

  pub data Reach (r : Runtime) : Runtime → Type 0 where
    here : Reach r r
    next : {s t : Runtime} → Reach r s → Step s t → Reach r t

-- The flags of a client that the loop of its connection leaves alone.
receive-live :
    (c : Client)
    → ((receive c).0.queue_closed ≡ c.queue_closed) × ((receive c).0.once_done ≡ c.once_done)
unfolding receive
receive-live c = go c.queue
  where
    go :
        (os : List Outbound)
        → ((receive_from c os).0.queue_closed ≡ c.queue_closed)
          × ((receive_from c os).0.once_done ≡ c.once_done)
    go [] = (refl, refl)
    go (o ∷ os) = (refl, refl)

finish_send-live :
    (c : Client) (os : List Outbound)
    → ((finish_send c os).queue_closed ≡ c.queue_closed)
      × ((finish_send c os).once_done ≡ c.once_done)
unfolding finish_send mark_sent
finish_send-live c [] = (refl, refl)
finish_send-live c (o ∷ os) = ground arith

-- A change of one client that leaves its flags alone.
put-Inv :
    (r : Runtime) (id : String) (c : Client)
    → (c.queue_closed ≡ (r.objects id).queue_closed) × (c.once_done ≡ (r.objects id).once_done)
    → Inv r
    → Inv (record r { objects = put r.objects id c })
unfolding put
put-Inv r id c same =
    objects-Inv r (put r.objects id c) (λ j k. ground (arith, eq_iff id j, same.0, same.1))

-- The invariant does not read the PTY's side, and an ended session says less about its clients.
same-Inv :
    (r s : Runtime)
    → s.objects ≡ r.objects
    → s.clients ≡ r.clients
    → s.client_order ≡ r.client_order
    → s.controller_client_id ≡ r.controller_client_id
    → s.attaching ≡ r.attaching
    → (s.closed ≡ false → (r.closed ≡ false) × (s.attachment ≡ r.attachment))
    → Inv r
    → Inv s
same-Inv r s o c p k a opened h = record {
  same_order = c ∙ h.same_order ∙ sym p;
  distinct = rw c h.distinct;
  named = rw c h.named;
  controlled = rw (a, c, k) h.controlled;
  reflects = λ e. rw ((opened e).1, c) (h.reflects (opened e).0);
  live = rw (o, c) h.live;
  reserved = rw (a, o, c) h.reserved;
}

tell_all-Inv : (r : Runtime) (ids : List String) (o : Outbound) → Inv r → Inv (tell_all r ids o)
unfolding tell_all
tell_all-Inv r [] o h = h
tell_all-Inv r (id ∷ ids) o h = tell_all-Inv (enqueue_to r id o).0 ids o (enqueue_to-Inv r id o h)

write_input_from-Inv :
    (r : Runtime) (pty_ok : Bool) (id : String) (bytes : List ℕ)
    → Inv r
    → Inv (write_input_from r pty_ok id bytes).0
unfolding write_input_from write_input
write_input_from-Inv r pty_ok id bytes h =
    same-Inv r _ (ground arith) (ground arith) (ground arith) (ground arith) (ground arith)
      (λ e. (ground arith, ground arith)) h

resize_from-Inv :
    (r : Runtime) (pty_ok : Bool) (id : String) (cols rows : ℤ)
    → Inv r
    → Inv (resize_from r pty_ok id cols rows).0
unfolding resize_from resize apply_size
resize_from-Inv r pty_ok id cols rows h =
    same-Inv r _ (ground arith) (ground arith) (ground arith) (ground arith) (ground arith)
      (λ e. (ground arith, ground arith)) h

transfer-IsControlled :
    (a : Option Attaching) (clients : List String) (id : String)
    → contains_text clients id ≡ true
    → IsControlled a clients id
unfolding contains_text
transfer-IsControlled a [] id h = absurd (ground arith)
transfer-IsControlled none (x ∷ xs) id h = h
transfer-IsControlled (some a) (x ∷ xs) id h = h

-- Control passes to a client.
transfer-Inv :
    (r : Runtime) (id : String)
    → contains_text r.clients id ≡ true
    → Inv r
    → Inv (record r { controller_client_id = id })
transfer-Inv r id member h = record {
  same_order = h.same_order;
  distinct = h.distinct;
  named = h.named;
  controlled = transfer-IsControlled r.attaching r.clients id member;
  reflects = h.reflects;
  live = h.live;
  reserved = h.reserved;
}

take_control-Inv : (r : Runtime) (id : String) → Inv r → Inv (take_control r id)
unfolding take_control grant transfer
take_control-Inv r id h =
    if_both Inv (not (contains_text r.clients id) || r.closed) r
      (if r.controller_client_id == id then grant r id else transfer r r.controller_client_id id)
      (λ _. h)
      (λ e.
        if_both Inv (r.controller_client_id == id) (grant r id)
          (transfer r r.controller_client_id id)
          (λ _. enqueue_control_role-Inv r id control_role_controller reason_control_granted h)
          (λ _. passed (ground arith)))
  where
    passed : contains_text r.clients id ≡ true → Inv (transfer r r.controller_client_id id)
    passed member =
        let told =
          enqueue_control_role-Inv (record r { controller_client_id = id }) id
            control_role_controller reason_control_granted (transfer-Inv r id member h) in
        let old = r.controller_client_id in
        if_both Inv (not (old == "") && contains_text r.clients old) _ _
          (λ _. enqueue_control_role-Inv _ old control_role_observer reason_control_lost told)
          (λ _. told)

Step-Inv :
    (snapshot : List String → List String) {r s : Runtime} → Step snapshot r s → Inv r → Inv s
unfolding close_session wait_ended
Step-Inv snapshot {r} (reserves id idle new name e) h = attach_reserve-Inv r _ id h idle new name e
Step-Inv snapshot {r} (replays a flushed file busy _) h = attach_replay-Inv r a flushed file h busy
Step-Inv snapshot {r} (commits a busy _) h = attach_commit-Inv r a h busy
Step-Inv snapshot {r} (detaches id reason idle) h =
    (detach_client-Idle snapshot r id reason (record { inv = h; idle = idle })).inv
Step-Inv snapshot {r} (leaves id idle) h =
    (detach_locked-Idle r id _ (record { inv = h; idle = idle })).inv
Step-Inv snapshot {r} (tells id role reason idle) h = enqueue_control_role-Inv r id role reason h
Step-Inv snapshot {r} (takes id idle) h = take_control-Inv r id h
Step-Inv snapshot {r} (inputs pty_ok id bytes idle) h = write_input_from-Inv r pty_ok id bytes h
Step-Inv snapshot {r} (resizes pty_ok id cols rows idle) h = resize_from-Inv r pty_ok id cols rows h
Step-Inv snapshot {r} (outputs o idle) h =
    (broadcast-Idle snapshot r o (record { inv = h; idle = idle })).inv
Step-Inv snapshot {r} (closes pty_ok reason) h =
    if_first Inv r.closed _ _ (λ _. h)
      (λ _. tell_all-Inv _ (snapshot r.clients) _ (
        same-Inv r (record r { closed = true; stop_mode = stop_close }) refl refl refl refl refl
          (λ e. absurd (false≢true (sym e))) h))
Step-Inv snapshot {r} ends h =
    same-Inv r _ refl refl refl refl refl (λ e. absurd (false≢true (sym e))) h
Step-Inv snapshot {r} (receives id) h = put-Inv r id _ (receive-live (r.objects id)) h
Step-Inv snapshot {r} (sends id) h =
    put-Inv r id _ (finish_send-live (r.objects id) (r.objects id).in_flight) h

module _ (snapshot : List String → List String) where
  Reach-Inv : {r s : Runtime} → Inv r → Reach snapshot r s → Inv s
  Reach-Inv h here = h
  Reach-Inv h (next rs st) = Step-Inv snapshot st (Reach-Inv h rs)

  -- Whatever the callers do, in any order, until the session ends: the map of clients and their
  -- order have the same ids, each once and none empty; the controller is one of the clients, or
  -- the one that attaches if there is none, or nobody; an open session is `attached` exactly if it
  -- has clients; and no client has a closed queue or has been detached.
  pub runtime_invariant :
      (session workspace : String) (limits : Limits) (replay : ReplayConfig) (size : TerminalSize)
      {r : Runtime}
      → Reach snapshot (new_session_runtime session workspace limits replay size) r
      → Inv r
  unfolding new_session_runtime contains_text
  runtime_invariant session workspace limits replay size rs = Reach-Inv start rs
    where
      start : Inv (new_session_runtime session workspace limits replay size)
      start = record {
        same_order = refl;
        distinct = tt;
        named = refl;
        controlled = refl;
        reflects = λ e k. cc;
        live = tt;
        reserved = tt;
      }
