-- ===== src/Terminal/Runtime/Attach.antt =====
-- The three sections of attach in runtime.go keep the invariant.
use text.Mathlib.TextPositions.{eq_refl}
use term_bridge.Prelude.{
  String, ◌≡◌, refl, subst, ap, ◌∙◌, inl, inr, Bool, true, false, not, ◌&&◌, none, some, List, [],
  ◌∷◌, ◌++◌, arith, ◌==◌, eq_iff, if◌then◌else◌, if_first, All-append, Bool-cases, Result, ok, err,
}
use term_bridge.Prelude.Text.{contains_text}
use term_bridge.Terminal.Client.{Client, new_client}
use term_bridge.Terminal.Replay.{HistoryFile, enqueue_replay, ReplayError}
use term_bridge.Terminal.Replay.Keeps.{enqueue_replay_keeps}
use term_bridge.Terminal.Runtime.{
  Runtime, Attaching, Attachment, attached, detached, put, is_controller, reserve, reservation,
  attach_reserve, attach_abort, attach_replay, attach_commit, drop_reservation, go_live,
  session_closed, after_replay, is_empty,
}
use term_bridge.Terminal.Runtime.Order.{append-IsDistinct, contains-append}
use term_bridge.Terminal.Runtime.Inv.{
  Inv, IsControlled, Reflects, IsLive, IsReserved, put-IsLive, put_elsewhere, enqueue-live,
  objects-Inv,
}

reserve-IsControlled :
    (clients : List String) (controller : String) (a : Attaching)
    → IsControlled none clients controller
    → contains_text clients "" ≡ false
    → IsControlled (some a) clients (if controller == "" then a.id else controller)
unfolding contains_text
reserve-IsControlled [] controller a h named = ground (arith, eq_iff controller "")
reserve-IsControlled (x ∷ xs) controller a h named = elim (Bool-cases (controller == "")) [
  | inl e ↦ absurd (ground (arith, eq_iff controller "", h, named))
  | inr e ↦ rw e h
]

reserve-Inv :
    (r : Runtime) (id : String)
    → Inv r
    → r.attaching ≡ none
    → contains_text r.clients id ≡ false
    → (id == "") ≡ false
    → Inv (reserve r id)
unfolding reserve put
reserve-Inv r id h idle new name = record {
  same_order = h.same_order;
  distinct = h.distinct;
  named = h.named;
  controlled =
      reserve-IsControlled r.clients r.controller_client_id (reservation r id)
        (subst (λ a. IsControlled a r.clients r.controller_client_id) idle h.controlled) h.named;
  reflects = h.reflects;
  live = put_elsewhere r.objects r.clients id new_client new h.live;
  reserved = (new, name, (rw eq_refl refl, rw eq_refl refl));
}

-- The reservation of a new, named client keeps the invariant.
pub attach_reserve-Inv :
    (r r' : Runtime) (id : String)
    → Inv r
    → r.attaching ≡ none
    → contains_text r.clients id ≡ false
    → (id == "") ≡ false
    → attach_reserve r id ≡ ok r'
    → Inv r'
unfolding attach_reserve
attach_reserve-Inv r r' id h idle new name e =
    let same : reserve r id ≡ r' = ground arith in subst Inv same (reserve-Inv r id h idle new name)

drop-IsControlled :
    (clients : List String) (controller : String) (a : Attaching)
    → IsControlled (some a) clients controller
    → contains_text clients a.id ≡ false
    → IsControlled none clients (if controller == a.id then "" else controller)
unfolding contains_text
drop-IsControlled [] controller a h new = ground (arith, eq_iff controller a.id)
drop-IsControlled (x ∷ xs) controller a h new = elim (Bool-cases (controller == a.id)) [
  | inl e ↦ absurd (ground (arith, eq_iff controller a.id, h, new))
  | inr e ↦ rw e h
]

drop_reservation-Inv :
    (r : Runtime) (a : Attaching) → Inv r → r.attaching ≡ some a → Inv (drop_reservation r a.id)
unfolding drop_reservation is_controller
drop_reservation-Inv r a h busy =
    let held : IsReserved (some a) r.objects r.clients =
      subst (λ o. IsReserved o r.objects r.clients) busy h.reserved in
    record {
      same_order = h.same_order;
      distinct = h.distinct;
      named = h.named;
      controlled =
          drop-IsControlled r.clients r.controller_client_id a
            (subst (λ o. IsControlled o r.clients r.controller_client_id) busy h.controlled) held.0;
      reflects = h.reflects;
      live = put_elsewhere r.objects r.clients a.id _ held.0 h.live;
      reserved = tt;
    }

-- With no client left the attachment becomes `detached`, with clients it stays.
detach-Reflects :
    (clients : List String) (attachment : Attachment) (closed : Bool)
    → (closed ≡ false → Reflects attachment clients)
    → closed ≡ false
    → Reflects (if is_empty clients && not closed then detached else attachment) clients
unfolding is_empty
detach-Reflects [] attachment closed h e = rw e (λ k. cc)
detach-Reflects (x ∷ xs) attachment closed h e = h e

attach_abort-Inv :
    (r : Runtime) (a : Attaching) → Inv r → r.attaching ≡ some a → Inv (attach_abort r a.id)
unfolding attach_abort
attach_abort-Inv r a h busy =
    let d = drop_reservation-Inv r a h busy in
    record {
      same_order = d.same_order;
      distinct = d.distinct;
      named = d.named;
      controlled = d.controlled;
      reflects = detach-Reflects r.clients r.attachment r.closed h.reflects;
      live = d.live;
      reserved = tt;
    }

-- A replay keeps a client live.
replay_live :
    (r : Runtime) (role : String) (flushed : Bool) (file : HistoryFile) (c : Client)
    → (c.queue_closed ≡ false) × (c.once_done ≡ false)
    → let c' =
        (enqueue_replay r.limits r.replay r.session_id r.workspace_id role flushed file c).0 in
      (c'.queue_closed ≡ false) × (c'.once_done ≡ false)
replay_live r role flushed file =
    enqueue_replay_keeps (λ c. (c.queue_closed ≡ false) × (c.once_done ≡ false)) r.limits
      (λ c o h. let same = enqueue-live r.limits c o in (same.0 ∙ h.0, same.1 ∙ h.1)) r.replay
      r.session_id r.workspace_id role flushed file

replayed-IsControlled :
    (clients : List String) (controller : String) (a : Attaching)
    → IsControlled (some a) clients controller
    → IsControlled (some (record a { replayed = true })) clients controller
replayed-IsControlled [] controller a h = h
replayed-IsControlled (x ∷ xs) controller a h = h

after_replay-Inv :
    (r : Runtime) (a : Attaching) (result : Result ReplayError (Unit {0}))
    → Inv r
    → r.attaching ≡ some a
    → Inv (after_replay r a result).0
unfolding after_replay
after_replay-Inv r a (err e) h busy = attach_abort-Inv r a h busy
after_replay-Inv r a (ok u) h busy = record {
  same_order = h.same_order;
  distinct = h.distinct;
  named = h.named;
  controlled =
      replayed-IsControlled r.clients r.controller_client_id a
        (subst (λ o. IsControlled o r.clients r.controller_client_id) busy h.controlled);
  reflects = h.reflects;
  live = h.live;
  reserved = subst (λ o. IsReserved o r.objects r.clients) busy h.reserved;
}

-- The replay of an attach keeps the invariant, whether it succeeds or fails.
pub attach_replay-Inv :
    (r : Runtime) (a : Attaching) (flushed : Bool) (file : HistoryFile)
    → Inv r
    → r.attaching ≡ some a
    → Inv (attach_replay r a flushed file).0
unfolding attach_replay
attach_replay-Inv r a flushed file h busy =
    let held : IsReserved (some a) r.objects r.clients =
      subst (λ o. IsReserved o r.objects r.clients) busy h.reserved in
    let run =
      enqueue_replay r.limits r.replay r.session_id r.workspace_id a.role flushed file
        (r.objects a.id) in
    let alive = replay_live r a.role flushed file (r.objects a.id) held.2 in
    after_replay-Inv _ a run.1
      (objects-Inv r (put r.objects a.id run.0)
        (λ j k. put-IsLive r.objects a.id j run.0 alive.0 alive.1 k) h)
      busy

commit-Reflects : (xs : List String) (id : String) → Reflects attached (xs ++ id ∷ [])
commit-Reflects [] id = refl
commit-Reflects (x ∷ xs) id = refl

commit-IsControlled :
    (xs : List String) (controller : String) (a : Attaching)
    → IsControlled (some a) xs controller
    → IsControlled none (xs ++ a.id ∷ []) controller
unfolding contains_text
commit-IsControlled [] controller a h = ground (arith, eq_iff a.id controller)
commit-IsControlled (x ∷ xs) controller a h =
    ground (arith, contains-append xs (a.id ∷ []) controller)

go_live-Inv : (r : Runtime) (a : Attaching) → Inv r → r.attaching ≡ some a → Inv (go_live r a)
unfolding go_live contains_text
go_live-Inv r a h busy =
    let held : IsReserved (some a) r.objects r.clients =
      subst (λ o. IsReserved o r.objects r.clients) busy h.reserved in
    record {
      same_order = ap (λ l. l ++ a.id ∷ []) h.same_order;
      distinct = append-IsDistinct r.clients a.id h.distinct held.0;
      named = contains-append r.clients (a.id ∷ []) "" ∙ ground (arith, h.named, held.1);
      controlled =
          commit-IsControlled r.clients r.controller_client_id a
            (subst (λ o. IsControlled o r.clients r.controller_client_id) busy h.controlled);
      reflects = λ _. commit-Reflects r.clients a.id;
      live = All-append (IsLive r.objects) r.clients (a.id ∷ []) h.live (held.2, tt);
      reserved = tt;
    }

-- The last section keeps the invariant.
pub attach_commit-Inv :
    (r : Runtime) (a : Attaching) → Inv r → r.attaching ≡ some a → Inv (attach_commit r a).0
unfolding attach_commit
attach_commit-Inv r a h busy =
    if_first Inv r.closed (drop_reservation r a.id, err session_closed) (go_live r a, ok tt)
      (λ _. drop_reservation-Inv r a h busy) (λ _. go_live-Inv r a h busy)
