-- ===== src/Terminal/Control/Safety.antt =====
-- Who reaches the PTY, and who controls after a detach: runtime.go.
use term_bridge.Prelude.{
  ℕ, suc, String, ◌≡◌, ◌≢◌, refl, sym, ap, subst, ◌∙◌, inl, inr, Bool, true, false, not, ◌&&◌,
  Option, none, some, List, [], ◌∷◌, length, arith, ◌==◌, eq_iff, if◌then◌else◌, Bool-cases, ok, ℤ,
}
use term_bridge.Prelude.Text.{contains_text}
use term_bridge.Protocol.Terminal.{
  control_role_controller, reason_control_auto_granted, validate_size,
}
use term_bridge.Protocol.Terminal.Valid.{IsCellCount, validate_size_iff}
use term_bridge.Process.Size.{TerminalSize}
use term_bridge.Terminal.Client.{Limits}
use term_bridge.Terminal.Replay.{ReplayConfig}
use term_bridge.Terminal.Runtime.{
  Runtime, put, is_controller, enqueue_control_role, enqueue_to, remove_client_order,
  new_session_runtime, is_empty,
}
use term_bridge.Terminal.Runtime.Inv.{IsControlled, IsLive}
use term_bridge.Terminal.Runtime.Order.{All-at}
use term_bridge.Terminal.Control.{
  promote, detach_locked, announce, send_loop, detach, detach_client, resize_from, resize,
  apply_size, reason_client_queue_full, close_clients,
}
use term_bridge.Terminal.Control.Detach.{
  Idle, Idle-IsControlled, detach_locked-Idle, kept-IsControlled,
}
use term_bridge.Terminal.Control.Steps.{Reach, runtime_invariant}

-- A named client that controls is attached.
controller_member :
    (clients : List String) (controller id : String)
    → IsControlled none clients controller
    → (id == "") ≡ false
    → (controller == id) ≡ true
    → contains_text clients id ≡ true
unfolding contains_text
controller_member [] controller id h name same =
    absurd (ground (arith, eq_iff controller id, eq_iff id ""))
controller_member (x ∷ xs) controller id h name same =
    let e = (eq_iff controller id).0 same in subst (λ c. contains_text (x ∷ xs) c ≡ true) e h

module _ (snapshot : List String → List String) (session workspace : String) (limits : Limits)
    (replay : ReplayConfig) (size : TerminalSize) where
  abbrev pub Reachable : Runtime → Type 0
  Reachable r = Reach snapshot (new_session_runtime session workspace limits replay size) r

  Reachable-Idle : {r : Runtime} → Reachable r → r.attaching ≡ none → Idle r
  Reachable-Idle rs idle = record {
    inv = runtime_invariant snapshot session workspace limits replay size rs;
    idle = idle;
  }

  -- A runtime, or what closeClients makes of it when the session ends.
  pub data AtEnd (r : Runtime) : Runtime → Type 0 where
    going_on : AtEnd r r
    ended : AtEnd r (close_clients snapshot r)

  -- In every reachable state, a size that reaches the PTY comes from an attached client, the one
  -- that controls the terminal, and has between 1 and 1000 columns and rows.
  pub resize_needs_control :
      {r : Runtime} (pty_ok : Bool) (id : String) (cols rows : ℤ)
      → Reachable r
      → r.attaching ≡ none
      → (id == "") ≡ false
      → (resize_from r pty_ok id cols rows).0.pty_sizes ≢ r.pty_sizes
      → (contains_text r.clients id ≡ true)
        × (r.controller_client_id ≡ id)
        × IsCellCount cols
        × IsCellCount rows
  unfolding resize_from resize apply_size is_controller
  resize_needs_control {r} pty_ok id cols rows rs idle name changed =
      let control : (r.controller_client_id == id) ≡ true = ground arith in
      let valid : validate_size cols rows ≡ ok tt = ground arith in
      let cells = (validate_size_iff cols rows).0 valid in
      (
        controller_member r.clients r.controller_client_id id
            (Idle-IsControlled (Reachable-Idle rs idle)) name control,
        (eq_iff r.controller_client_id id).0 control,
        cells.0,
        cells.1,
      )

-- The first of a list of ids, or no id.
abbrev pub first_id : List String → String
first_id [] = ""
first_id (x ∷ xs) = x

no_clients :
    (xs : List String) (controller : String)
    → IsControlled none xs controller
    → contains_text xs "" ≡ false
    → (controller == "") ≡ true
    → xs ≡ []
no_clients [] controller h named e = refl
no_clients (x ∷ xs) controller h named e =
    absurd (ground (arith, (eq_iff controller "").0 e, h, named))

-- The runtime and the promoted client after detachClient has released the mutexes.
abbrev pub left : Runtime → String → Runtime × Option String
left r id =
    detach_locked
      (record r { objects = put r.objects id (record (r.objects id) { once_done = true }) }) id

abbrev pub told : Runtime → Option String → Runtime
told r none = r
told r (some next) = enqueue_control_role r next control_role_controller reason_control_auto_granted

clients-left :
    (r : Runtime) (id : String)
    → Idle r
    → (left r id).0.clients ≡ remove_client_order r.client_order id
unfolding detach_locked
clients-left r id h = ap (λ l. remove_client_order l id) h.inv.same_order

promote_first : (clients order : List String) → (promote clients order).0 ≡ first_id order
unfolding promote
promote_first clients [] = refl
promote_first clients (x ∷ xs) = refl

-- The three ways in which the controller is chosen agree.
chosen :
    (others clients : List String) (controller : String) (was closed : Bool)
    → (others ≡ [] → was ≡ false → controller ≡ "")
    → (if is_empty others && not closed
        then ""
        else (if was then promote clients others else (controller, none)).0)
      ≡ (if was then first_id others else controller)
unfolding is_empty promote
chosen [] clients controller true true h = refl
chosen [] clients controller true false h = refl
chosen [] clients controller false true h = refl
chosen [] clients controller false false h = sym (h refl refl)
chosen (x ∷ xs) clients controller true closed h = refl
chosen (x ∷ xs) clients controller false closed h = refl

controller-left :
    (r : Runtime) (id : String)
    → Idle r
    → (left r id).0.controller_client_id ≡ (
        if r.controller_client_id == id
        then first_id (remove_client_order r.client_order id)
        else r.controller_client_id)
unfolding detach_locked is_controller
controller-left r id h =
    let rest = remove_client_order r.clients id in
    let c = r.controller_client_id in
    rw (← h.inv.same_order) (
      chosen rest rest c (c == id) r.closed (λ none_left other.
        subst (λ l. IsControlled none l c) none_left
          (kept-IsControlled r.clients id c (Idle-IsControlled h) other)))

-- Go walks an empty map in no round.
module _ (snapshot : List String → List String) (quiet : snapshot [] ≡ []) where
  -- The broadcast of detachClient reaches nobody: it is reached only when no client is left.
  silent :
      (leave : Runtime → String → Runtime) (r : Runtime) (reason : String)
      → Idle r
      → announce snapshot leave r none reason ≡ r
  unfolding announce send_loop
  silent leave r reason h = elim (Bool-cases (r.controller_client_id == "")) [
    | inl e ↦
        let none_left =
          no_clients r.clients r.controller_client_id (Idle-IsControlled h) h.inv.named e in
        rw (e, ap snapshot none_left ∙ quiet, announce, send_loop)
    | inr e ↦ rw (e, announce)
  ]

  announce-told :
      (leave : Runtime → String → Runtime) (r : Runtime) (promoted : Option String)
      (reason : String)
      → Idle r
      → announce snapshot leave r promoted reason ≡ told r promoted
  unfolding announce
  announce-told leave r (some next) reason h = refl
  announce-told leave r none reason h = silent leave r reason h

  detach_alone :
      (f : ℕ) (reason : String) (r : Runtime) (id : String)
      → Idle r
      → (r.objects id).once_done ≡ false
      → detach snapshot (suc f) reason r id ≡ told (left r id).0 (left r id).1
  unfolding detach
  detach_alone f reason r id h fresh = rw fresh (
      announce-told (detach snapshot f reason_client_queue_full) (left r id).0 (left r id).1 reason
        (detach_locked-Idle r id _ h))

  controller-told :
      (r : Runtime) (promoted : Option String)
      → (told r promoted).controller_client_id ≡ r.controller_client_id
  unfolding enqueue_control_role enqueue_to
  controller-told r none = refl
  controller-told r (some next) = refl

  clients-told : (r : Runtime) (promoted : Option String) → (told r promoted).clients ≡ r.clients
  unfolding enqueue_control_role enqueue_to
  clients-told r none = refl
  clients-told r (some next) = refl

  -- After a detach of an attached client the others stay, in their order. If it controlled the
  -- terminal, control goes to the one of them that attached first, and to nobody if there is none;
  -- otherwise the controller stays.
  pub detach_promotes_oldest :
      (r : Runtime) (id reason : String)
      → Idle r
      → contains_text r.clients id ≡ true
      → let s = detach_client snapshot r id reason in
        let others = remove_client_order r.client_order id in
        (s.clients ≡ others)
        × (s.controller_client_id
            ≡ (if r.controller_client_id == id then first_id others else r.controller_client_id))
  unfolding detach_client
  detach_promotes_oldest r id reason h member =
      let fresh = (All-at (IsLive r.objects) r.clients id h.inv.live member).1 in
      let same = detach_alone (length r.clients) reason r id h fresh in
      let (s, promoted) = left r id in
      (
        ap (λ (t : Runtime). t.clients) same ∙ clients-told s promoted ∙ clients-left r id h,
        ap (λ (t : Runtime). t.controller_client_id) same
            ∙ controller-told s promoted
            ∙ controller-left r id h,
      )
