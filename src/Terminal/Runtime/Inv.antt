-- ===== src/Terminal/Runtime/Inv.antt =====
-- The invariant of a session runtime of runtime.go: who is attached, who controls.
use term_bridge.Prelude.{
  String, ◌≡◌, refl, true, false, Option, none, some, List, [], ◌∷◌, arith, ◌==◌, eq_iff, All,
}
use term_bridge.Prelude.Text.{contains_text}
use term_bridge.Terminal.Outbound.{Outbound}
use term_bridge.Terminal.Client.{Client, Limits, enqueue}
use term_bridge.Terminal.Runtime.{
  Runtime, Attaching, Attachment, attached, put, enqueue_to, enqueue_control_role,
}
use term_bridge.Terminal.Runtime.Order.{IsDistinct}

-- The controller is one of the clients; with no client there is none, or the one that attaches.
abbrev pub IsControlled : Option Attaching → List String → String → Type 0
IsControlled none [] controller = controller ≡ ""
IsControlled (some a) [] controller = controller ≡ a.id
IsControlled _ (x ∷ xs) controller = contains_text (x ∷ xs) controller ≡ true

-- The attachment state says whether there are clients.
abbrev pub Reflects : Attachment → List String → Type 0
Reflects a [] = a ≡ attached → ⊥
Reflects a (x ∷ xs) = a ≡ attached

-- A queue that is open, and a client that has not been detached.
abbrev pub IsLive : (String → Client) → String → Type 0
IsLive objects id = ((objects id).queue_closed ≡ false) × ((objects id).once_done ≡ false)

-- The client that attaches is new, and has a name.
abbrev pub IsReserved : Option Attaching → (String → Client) → List String → Type 0
IsReserved none objects clients = Unit
IsReserved (some a) objects clients =
    (contains_text clients a.id ≡ false) × ((a.id == "") ≡ false) × IsLive objects a.id

pub record Inv (r : Runtime) : Type 0 where
  pub same_order : r.clients ≡ r.client_order
  pub distinct : IsDistinct r.clients
  pub named : contains_text r.clients "" ≡ false
  pub controlled : IsControlled r.attaching r.clients r.controller_client_id
  pub reflects : r.closed ≡ false → Reflects r.attachment r.clients
  pub live : All (IsLive r.objects) r.clients
  pub reserved : IsReserved r.attaching r.objects r.clients

module _ (limits : Limits) where
  pub enqueue-live :
      (c : Client) (o : Outbound)
      → ((enqueue limits c o).0.queue_closed ≡ c.queue_closed)
        × ((enqueue limits c o).0.once_done ≡ c.once_done)
  unfolding enqueue
  enqueue-live c o = ground arith

-- A write of a live object keeps every client live; so does a write elsewhere.
pub put-IsLive :
    (objects : String → Client) (id j : String) (c : Client)
    → c.queue_closed ≡ false
    → c.once_done ≡ false
    → IsLive objects j
    → IsLive (put objects id c) j
unfolding put
put-IsLive objects id j c opened fresh h = ground arith

pub All-put-IsLive :
    (objects : String → Client) (xs : List String) (id : String) (c : Client)
    → c.queue_closed ≡ false
    → c.once_done ≡ false
    → All (IsLive objects) xs
    → All (IsLive (put objects id c)) xs
All-put-IsLive objects [] id c opened fresh h = tt
All-put-IsLive objects (x ∷ xs) id c opened fresh h =
    (put-IsLive objects id x c opened fresh h.0, All-put-IsLive objects xs id c opened fresh h.1)

pub put_elsewhere :
    (objects : String → Client) (xs : List String) (id : String) (c : Client)
    → contains_text xs id ≡ false
    → All (IsLive objects) xs
    → All (IsLive (put objects id c)) xs
unfolding contains_text put
put_elsewhere objects [] id c new h = tt
put_elsewhere objects (x ∷ xs) id c new h =
    (ground (arith, eq_iff id x, eq_iff x id), put_elsewhere objects xs id c (ground arith) h.1)

-- What keeps the objects live keeps the invariant.
pub objects-Inv :
    (r : Runtime) (objects : String → Client)
    → ((j : String) → IsLive r.objects j → IsLive objects j)
    → Inv r
    → Inv (record r { objects = objects })
objects-Inv r objects keep h = record {
  same_order = h.same_order;
  distinct = h.distinct;
  named = h.named;
  controlled = h.controlled;
  reflects = h.reflects;
  live = all r.clients h.live;
  reserved = held r.attaching h.reserved;
}
  where
    all : (xs : List String) → All (IsLive r.objects) xs → All (IsLive objects) xs
    all [] k = tt
    all (x ∷ xs) k = (keep x k.0, all xs k.1)

    held :
        (a : Option Attaching) → IsReserved a r.objects r.clients → IsReserved a objects r.clients
    held none k = tt
    held (some a) k = (k.0, k.1, keep a.id k.2)

pub enqueue_to-Inv : (r : Runtime) (id : String) (o : Outbound) → Inv r → Inv (enqueue_to r id o).0
unfolding enqueue_to put
enqueue_to-Inv r id o =
    objects-Inv r (put r.objects id (enqueue r.limits (r.objects id) o).0)
      (λ j k. ground (arith, enqueue-live r.limits (r.objects id) o, eq_iff id j))

-- The fields that an enqueue leaves alone.
pub enqueue_to-attaching :
    (r : Runtime) (id : String) (o : Outbound) → (enqueue_to r id o).0.attaching ≡ r.attaching
unfolding enqueue_to
enqueue_to-attaching r id o = refl

pub enqueue_control_role-Inv :
    (r : Runtime) (id role reason : String) → Inv r → Inv (enqueue_control_role r id role reason)
unfolding enqueue_control_role
enqueue_control_role-Inv r id role reason h = enqueue_to-Inv r id _ h

pub enqueue_control_role-attaching :
    (r : Runtime) (id role reason : String)
    → (enqueue_control_role r id role reason).attaching ≡ r.attaching
unfolding enqueue_control_role
enqueue_control_role-attaching r id role reason = refl
