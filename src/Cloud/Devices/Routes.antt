-- ===== src/Cloud/Devices/Routes.antt =====
-- The route to a device under any order of tunnels that begin and end.
use term_bridge.Prelude.{
  ℕ, ◌<◌, ◌≤◌, String, Bool, true, false, ◌==◌, eq_iff, Bool-cases, inl, inr, eqb, ◌≡◌, refl, sym,
  ap, subst, ◌∙◌, if_both, Option, none, some, arith,
}
use term_bridge.Cloud.Devices.{
  Connections, no_connections, is_tunnel, set_route_to, close_tunnel, greet, set_route, clear_route,
  end_tunnel, set_offline, disconnect_device,
}

-- What the tunnels and requests do, in any order.
pub data TunnelStep : Connections → Connections → Type 0 where
  greets : {c : Connections} (id name : String) (now : ℕ) → TunnelStep c (greet id name now c)
  routes_to : {c : Connections} (id : String) → TunnelStep c (set_route id c)
  ends : {c : Connections} (n : ℕ) → n < c.tunnels → TunnelStep c (end_tunnel n c).0
  goes_offline : {c : Connections} (id : String) (now : ℕ) → TunnelStep c (set_offline id now c)
  disconnects :
      {c : Connections} (id : String) (now : ℕ) → TunnelStep c (disconnect_device id now c)

pub data TunnelsReached : Connections → Type 0 where
  at_start : TunnelsReached no_connections
  then_step : {c c' : Connections} → TunnelsReached c → TunnelStep c c' → TunnelsReached c'

-- The route of a device is a tunnel of this device whose terminals and watches have not been closed.
abbrev pub IsLive : Connections → String → Option ℕ → Type 0
IsLive c id none = Unit
IsLive c id (some n) = (n < c.tunnels) × (c.device_of n ≡ id) × (c.closed n ≡ false)

abbrev pub IsRouted : Connections → Type 0
IsRouted c = (id : String) → IsLive c id (c.routes id)

-- A tunnel that will come has not been closed.
abbrev pub IsFresh : Connections → Type 0
IsFresh c = (n : ℕ) → c.tunnels ≤ n → c.closed n ≡ false

eqb-same : (a b : ℕ) → eqb a b ≡ true → a ≡ b
eqb-same a b y = ground (arith, y)

not_tunnel :
    (c : Connections) (id i : String) (m : ℕ) (o : Option ℕ)
    → IsLive c id o
    → c.device_of m ≡ i
    → (i == id) ≡ false
    → is_tunnel m o ≡ false
not_tunnel c id i m none h d n = refl
not_tunnel c id i m (some k) (_, at, _) d n = elim (Bool-cases (eqb k m)) [
  | inl y ↦
      absurd
        (ground (arith, n, (eq_iff i id).1 (sym d ∙ ap c.device_of (sym (eqb-same k m y)) ∙ at)))
  | inr z ↦ z
]

unequal_sym : (s t : String) → (s == t) ≡ false → (t == s) ≡ false
unequal_sym s t n = elim (Bool-cases (t == s)) [
  | inl y ↦ absurd (ground (arith, n, (eq_iff s t).1 (sym ((eq_iff t s).0 y))))
  | inr z ↦ z
]

closed_false :
    (o : Option ℕ) (closed : ℕ → Bool) (m : ℕ)
    → is_tunnel m o ≡ false
    → closed m ≡ false
    → close_tunnel o closed m ≡ false
closed_false o closed m n h =
    if_both (λ b. b ≡ false) (is_tunnel m o) true (closed m) (λ y. absurd (ground (arith, y, n)))
      (λ _. h)

-- The route of another device after the route of one is closed.
other-IsLive :
    (c : Connections) (id i : String) (o : Option ℕ)
    → IsRouted c
    → (i == id) ≡ false
    → IsLive c i o
    → IsLive (record c { closed = close_tunnel (c.routes id) c.closed }) i o
other-IsLive c id i none r n h = tt
other-IsLive c id i (some m) r n (lt, at, fresh) = (
  lt,
  at,
  closed_false (c.routes id) c.closed m (not_tunnel c id i m (c.routes id) (r id) at n) fresh,
)

-- The route of another device after a new tunnel.
next-IsLive :
    (c : Connections) (id i : String) (o : Option ℕ)
    → IsLive (record c { closed = close_tunnel (c.routes id) c.closed }) i o
    → IsLive (set_route id c) i o
unfolding set_route
next-IsLive c id i none h = tt
next-IsLive c id i (some m) (lt, at, fresh) = (
  ground (arith, lt),
  if_both (λ x. x ≡ i) (eqb m c.tunnels) id (c.device_of m) (λ y. absurd (ground (arith, y, lt)))
      (λ _. at),
  fresh,
)

new_is_other :
    (c : Connections) (id : String) (o : Option ℕ) → IsLive c id o → is_tunnel c.tunnels o ≡ false
new_is_other c id none h = refl
new_is_other c id (some m) (lt, _, _) = ground (arith, lt)

late_other :
    (c : Connections) (id : String) (n : ℕ) (o : Option ℕ)
    → c.tunnels ≤ n
    → IsLive c id o
    → is_tunnel n o ≡ false
late_other c id n none le h = refl
late_other c id n (some m) le (lt, _, _) = ground (arith, lt, le)

set_route-IsRouted :
    (id : String) (c : Connections) → IsRouted c → IsFresh c → IsRouted (set_route id c)
unfolding set_route
set_route-IsRouted id c r f i =
    if_both (IsLive (set_route id c) i) (i == id) (some c.tunnels) (c.routes i)
      (λ y. (
        ground arith,
        if_both (λ x. x ≡ i) (eqb c.tunnels c.tunnels) id (c.device_of c.tunnels)
            (λ _. sym ((eq_iff i id).0 y)) (λ n. absurd (ground (arith, n))),
        closed_false (c.routes id) c.closed c.tunnels (new_is_other c id (c.routes id) (r id))
            (f c.tunnels (ground arith)),
      ))
      (λ n. next-IsLive c id i (c.routes i) (other-IsLive c id i (c.routes i) r n (r i)))

disconnect_device-IsRouted :
    (id : String) (now : ℕ) (c : Connections) → IsRouted c → IsRouted (disconnect_device id now c)
unfolding disconnect_device
disconnect_device-IsRouted id now c r i =
    if_both (IsLive (disconnect_device id now c) i) (i == id) none (c.routes i) (λ _. tt)
      (λ n. other-IsLive c id i (c.routes i) r n (r i))

abbrev cleared : Connections → String → Connections
cleared c id = record c { routes = set_route_to c.routes id none }

-- After the end of the tunnel that was the route.
ended-IsLive :
    (n : ℕ) (c : Connections) (i : String) (o : Option ℕ)
    → is_tunnel n o ≡ false
    → IsLive c i o
    → IsLive (record c { closed = close_tunnel (some n) c.closed }) i o
ended-IsLive n c i none k h = tt
ended-IsLive n c i (some m) k (lt, at, fresh) =
    (lt, at, closed_false (some n) c.closed m (ground (arith, k)) fresh)

end_tunnel-IsRouted : (n : ℕ) (c : Connections) → IsRouted c → IsRouted (end_tunnel n c).0
unfolding end_tunnel clear_route
end_tunnel-IsRouted n c r i =
    let id = c.device_of n in
    if_both
      (λ (x : Connections × Bool).
        IsLive (record x.0 { closed = close_tunnel (some n) x.0.closed }) i (x.0.routes i))
      (is_tunnel n (c.routes id)) (cleared c id, true) (c, false)
      (λ _.
        if_both (IsLive (record (cleared c id) { closed = close_tunnel (some n) c.closed }) i)
          (i == id) none (c.routes i) (λ _. tt)
          (λ k.
            ended-IsLive n (cleared c id) i (c.routes i)
              (not_tunnel c i id n (c.routes i) (r i) refl (unequal_sym i id k)) (r i)))
      (λ k.
        ended-IsLive n c i (c.routes i)
          (elim (Bool-cases (i == id)) [
            | inl y ↦ subst (λ x. is_tunnel n (c.routes x) ≡ false) (sym ((eq_iff i id).0 y)) k
            | inr z ↦ not_tunnel c i id n (c.routes i) (r i) refl (unequal_sym i id z)
          ])
          (r i))

disconnect_device-IsFresh :
    (id : String) (now : ℕ) (c : Connections)
    → IsRouted c
    → IsFresh c
    → IsFresh (disconnect_device id now c)
unfolding disconnect_device
disconnect_device-IsFresh id now c r f n le =
    closed_false (c.routes id) c.closed n (late_other c id n (c.routes id) le (r id)) (f n le)

set_route-IsFresh :
    (id : String) (c : Connections) → IsRouted c → IsFresh c → IsFresh (set_route id c)
unfolding set_route
set_route-IsFresh id c r f n le =
    let before : c.tunnels ≤ n = ground (arith, le) in
    closed_false (c.routes id) c.closed n (late_other c id n (c.routes id) before (r id))
      (f n before)

end_tunnel-IsFresh :
    (n : ℕ) (c : Connections) → n < c.tunnels → IsFresh c → IsFresh (end_tunnel n c).0
unfolding end_tunnel clear_route
end_tunnel-IsFresh n c lt f =
    if_both
      (λ (x : Connections × Bool).
        (m : ℕ) → x.0.tunnels ≤ m → close_tunnel (some n) x.0.closed m ≡ false)
      (is_tunnel n (c.routes (c.device_of n))) (cleared c (c.device_of n), true) (c, false)
      (λ _ m le. closed_false (some n) c.closed m (ground (arith, lt, le)) (f m le))
      (λ _ m le. closed_false (some n) c.closed m (ground (arith, lt, le)) (f m le))

TunnelStep-IsRouted :
    (c c' : Connections) → TunnelStep c c' → IsRouted c × IsFresh c → IsRouted c' × IsFresh c'
unfolding greet set_offline
TunnelStep-IsRouted c c' (greets id name now) h = h
TunnelStep-IsRouted c c' (routes_to id) (r, f) =
    (set_route-IsRouted id c r f, set_route-IsFresh id c r f)
TunnelStep-IsRouted c c' (ends n lt) (r, f) =
    (end_tunnel-IsRouted n c r, end_tunnel-IsFresh n c lt f)
TunnelStep-IsRouted c c' (goes_offline id now) h = h
TunnelStep-IsRouted c c' (disconnects id now) (r, f) =
    (disconnect_device-IsRouted id now c r, disconnect_device-IsFresh id now c r f)

reached_lem : (c : Connections) → TunnelsReached c → IsRouted c × IsFresh c
unfolding no_connections
reached_lem c at_start = (λ _. tt, λ _ _. refl)
reached_lem c (then_step before step) = TunnelStep-IsRouted _ c step (reached_lem _ before)

-- However tunnels begin, end and replace each other and devices are disconnected, the route of a device is always a tunnel that this device opened and whose terminals and watches have not been closed: the end of an old tunnel never takes or keeps the route of a new one.
pub routes-IsRouted : (c : Connections) → TunnelsReached c → IsRouted c
routes-IsRouted c reached = (reached_lem c reached).0
