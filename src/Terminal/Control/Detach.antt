-- ===== src/Terminal/Control/Detach.antt =====
-- Detaching in runtime.go keeps the invariant, and so does a broadcast that detaches.
use text.Mathlib.TextPositions.{eq_refl}
use term_bridge.Prelude.{
  ℕ, zero, suc, String, ◌≡◌, refl, subst, ap, ◌∙◌, Bool, true, false, not, ◌&&◌, Option, none, some,
  List, [], ◌∷◌, arith, ◌==◌, eq_iff, if◌then◌else◌, if_both, All,
}
use term_bridge.Prelude.Text.{contains_text}
use term_bridge.Terminal.Outbound.{Outbound}
use term_bridge.Terminal.Client.{Client, close_queue}
use term_bridge.Terminal.Runtime.{
  Runtime, Attaching, Attachment, detached, put, is_controller, enqueue_to, close_client, is_empty,
  remove_client_order,
}
use term_bridge.Terminal.Runtime.Order.{contains-remove, remove-IsDistinct, All-remove}
use term_bridge.Terminal.Runtime.Inv.{
  Inv, IsControlled, Reflects, IsLive, IsReserved, put_elsewhere, enqueue_to-Inv,
  enqueue_to-attaching, enqueue_control_role-Inv, enqueue_control_role-attaching,
}
use term_bridge.Terminal.Control.{
  promote, detach_locked, send_loop, announce, detach, detach_client, broadcast, detach_fuel,
  reason_client_queue_full,
}

-- The invariant while no attach holds the mutexes.
pub record Idle (r : Runtime) : Type 0 where
  pub inv : Inv r
  pub idle : r.attaching ≡ none

pub Idle-IsControlled : {r : Runtime} → Idle r → IsControlled none r.clients r.controller_client_id
Idle-IsControlled {r} h =
    subst (λ a. IsControlled a r.clients r.controller_client_id) h.idle h.inv.controlled

of_contains :
    (ys : List String) (controller : String)
    → contains_text ys controller ≡ true
    → IsControlled none ys controller
unfolding contains_text
of_contains [] controller h = absurd (ground arith)
of_contains (y ∷ ys) controller h = h

-- A controller that is not removed stays one of the clients.
pub kept-IsControlled :
    (xs : List String) (id controller : String)
    → IsControlled none xs controller
    → (controller == id) ≡ false
    → IsControlled none (remove_client_order xs id) controller
kept-IsControlled [] id controller h ne = unfold remove_client_order in h
kept-IsControlled (x ∷ xs) id controller h ne =
    of_contains (remove_client_order (x ∷ xs) id) controller (
      ground
        (arith, contains-remove (x ∷ xs) id controller, eq_iff id controller, eq_iff controller id))

-- A removed controller is followed by the first of the others.
next-IsControlled :
    (ys : List String) (controller : String) (was closed : Bool)
    → (was ≡ false → IsControlled none ys controller)
    → IsControlled none ys (
        if is_empty ys && not closed
        then ""
        else (if was then promote ys ys else (controller, none)).0)
unfolding is_empty promote contains_text
next-IsControlled [] controller was false h = refl
next-IsControlled [] controller true true h = refl
next-IsControlled [] controller false true h = h refl
next-IsControlled (y ∷ ys) controller true closed h = rw eq_refl refl
next-IsControlled (y ∷ ys) controller false closed h = h refl

detach-Reflects :
    (xs : List String) (id : String) (attachment : Attachment) (closed : Bool)
    → (closed ≡ false → Reflects attachment xs)
    → closed ≡ false
    → Reflects
        (if is_empty (remove_client_order xs id) && not closed then detached else attachment)
        (remove_client_order xs id)
unfolding is_empty remove_client_order
detach-Reflects xs id attachment closed h e = go xs (remove_client_order xs id) refl (h e)
  where
    go :
        (xs ys : List String)
        → remove_client_order xs id ≡ ys
        → Reflects attachment xs
        → Reflects (if is_empty ys && not closed then detached else attachment) ys
    go xs [] same k = rw e (λ p. cc)
    go [] (y ∷ ys) same k = absurd (ground arith)
    go (x ∷ xs) (y ∷ ys) same k = k

no_reservation :
    (a : Option Attaching) (objects : String → Client) (clients : List String)
    → a ≡ none
    → IsReserved a objects clients
no_reservation none objects clients e = tt
no_reservation (some a) objects clients e = absurd (ground arith)

-- The object of the client that leaves may have been changed to any `c` before.
pub detach_locked-Idle :
    (r : Runtime) (id : String) (c : Client)
    → Idle r
    → Idle (detach_locked (record r { objects = put r.objects id c }) id).0
unfolding detach_locked is_controller
detach_locked-Idle r id c h =
    let objects = put r.objects id c in
    let i = h.inv in
    let rest = remove_client_order r.clients id in
    let gone : contains_text rest id ≡ false = contains-remove r.clients id id ∙ rw eq_refl refl in
    let others : All (IsLive objects) rest =
      put_elsewhere r.objects rest id c gone (All-remove (IsLive r.objects) r.clients id i.live) in
    record {
      inv = record {
        same_order = ap (λ l. remove_client_order l id) i.same_order;
        distinct = remove-IsDistinct r.clients id i.distinct;
        named = ground (arith, contains-remove r.clients id "", i.named);
        controlled =
            rw (h.idle, ← i.same_order)
              (next-IsControlled rest r.controller_client_id (is_controller r id) r.closed
                (kept-IsControlled r.clients id r.controller_client_id (Idle-IsControlled h)));
        reflects = detach-Reflects r.clients id r.attachment r.closed i.reflects;
        live =
            if_both (λ (o : String → Client). All (IsLive o) rest) (contains_text r.clients id)
              (close_client objects id) objects
              (λ _. put_elsewhere objects rest id (close_queue (objects id)) gone others)
              (λ _. others);
        reserved = no_reservation r.attaching _ rest h.idle;
      };
      idle = h.idle;
    }

enqueue_to-Idle : (r : Runtime) (id : String) (o : Outbound) → Idle r → Idle (enqueue_to r id o).0
enqueue_to-Idle r id o h = record {
  inv = enqueue_to-Inv r id o h.inv;
  idle = enqueue_to-attaching r id o ∙ h.idle;
}

pub send_loop-Idle :
    (leave : Runtime → String → Runtime)
    → ((r : Runtime) (id : String) → Idle r → Idle (leave r id))
    → (r : Runtime) (ids : List String) (o : Outbound) → Idle r
    → Idle (send_loop leave r ids o)
unfolding send_loop
send_loop-Idle leave keep r [] o h = h
send_loop-Idle leave keep r (id ∷ ids) o h =
    let sent = enqueue_to-Idle r id o h in
    let (r', done) = enqueue_to r id o in
    send_loop-Idle leave keep (if done then r' else leave r' id) ids o
      (if_both Idle done r' (leave r' id) (λ _. sent) (λ _. keep r' id sent))

module _ (snapshot : List String → List String) where
  announce-Idle :
      (leave : Runtime → String → Runtime)
      → ((r : Runtime) (id : String) → Idle r → Idle (leave r id))
      → (r : Runtime) (promoted : Option String) (reason : String) → Idle r
      → Idle (announce snapshot leave r promoted reason)
  unfolding announce
  announce-Idle leave keep r (some next) reason h = record {
    inv = enqueue_control_role-Inv r next _ _ h.inv;
    idle = enqueue_control_role-attaching r next _ _ ∙ h.idle;
  }
  announce-Idle leave keep r none reason h =
      if_both Idle (r.controller_client_id == "") _ r
        (λ _. send_loop-Idle leave keep r (snapshot r.clients) _ h) (λ _. h)

  -- Client.Detach keeps the invariant, at any fuel.
  detach-Idle :
      (f : ℕ) (reason : String) (r : Runtime) (id : String)
      → Idle r
      → Idle (detach snapshot f reason r id)
  unfolding detach
  detach-Idle zero reason r id h = h
  detach-Idle (suc f) reason r id h =
      let once = record (r.objects id) { once_done = true } in
      let out = detach_locked (record r { objects = put r.objects id once }) id in
      if_both Idle (r.objects id).once_done r
        (announce snapshot (detach snapshot f reason_client_queue_full) out.0 out.1 reason) (λ _. h)
        (λ _.
          announce-Idle (detach snapshot f reason_client_queue_full)
            (λ s j k. detach-Idle f reason_client_queue_full s j k) out.0 out.1 reason
            (detach_locked-Idle r id once h))

  pub detach_client-Idle :
      (r : Runtime) (id reason : String) → Idle r → Idle (detach_client snapshot r id reason)
  unfolding detach_client
  detach_client-Idle r id reason h = detach-Idle (detach_fuel r) reason r id h

  pub broadcast-Idle : (r : Runtime) (o : Outbound) → Idle r → Idle (broadcast snapshot r o)
  unfolding broadcast
  broadcast-Idle r o h =
      send_loop-Idle (detach snapshot (detach_fuel r) reason_client_queue_full)
        (λ s j k. detach-Idle (detach_fuel r) reason_client_queue_full s j k) r (snapshot r.clients)
        o h
