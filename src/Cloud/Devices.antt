-- ===== src/Cloud/Devices.antt =====
-- internal/cloud/api/handler/server.go: the devices that are connected (DeviceRegistry), and which
-- tunnel is the route to a device. A tunnel is a number, in the order of the connections.
pub mod Routes
mod Tests
use term_bridge.Prelude.{
  ℕ, ◌+◌, String, Bool, true, false, ◌&&◌, ◌==◌, ltb, eqb, if◌then◌else◌, Option, none, some,
}

pub record DeviceSummary : Type 0 where
  pub id : String
  pub name : String
  pub online : Bool
  pub status : String
  pub connected_at : Option ℕ
  pub last_seen : Option ℕ

abbrev pub DeviceRegistry : Type 0
DeviceRegistry = String → Option DeviceSummary

abbrev pub empty_summary : DeviceSummary
empty_summary = record {
  id = "";
  name = "";
  online = false;
  status = "";
  connected_at = none;
  last_seen = none;
}

unfoldable pub clone_device_summary : Option DeviceSummary → DeviceSummary
clone_device_summary none = empty_summary
clone_device_summary (some d) = d

abbrev pub set_device : DeviceRegistry → String → Option DeviceSummary → DeviceRegistry
set_device r id d other = if other == id then d else r other

abbrev pub or_now : Option ℕ → ℕ → Option ℕ
or_now none now = some now
or_now (some t) now = some t

-- DeviceRegistry.Register
unfoldable pub register_device : String → String → ℕ → DeviceRegistry → DeviceRegistry
unfolding clone_device_summary
register_device id name now r = set_device r id (
    some (record {
      id = id;
      name = name;
      online = true;
      status = "online";
      connected_at = or_now (clone_device_summary (r id)).connected_at now;
      last_seen = some now;
    }))

abbrev pub offline_at : ℕ → Option DeviceSummary → Option DeviceSummary
offline_at now none = none
offline_at now (some d) =
    some (record d { online = false; status = "offline"; last_seen = some now })

unfoldable pub mark_offline : String → ℕ → DeviceRegistry → DeviceRegistry
mark_offline id now r = set_device r id (offline_at now (r id))

unfoldable pub normalize_device_status : DeviceSummary → DeviceSummary
normalize_device_status d =
    if d.status == ""
    then if d.online then record d { status = "online" } else record d { status = "offline" }
    else d

unfoldable pub get_device : DeviceRegistry → String → DeviceSummary × Bool
unfolding normalize_device_status clone_device_summary
get_device r id = (
  normalize_device_status (clone_device_summary (r id)),
  elim (r id) [ none ↦ false | some d ↦ true ],
)

unfoldable pub delete_device : String → DeviceRegistry → DeviceRegistry
delete_device id r = set_device r id none

-- A stored device of a user.
pub record Device : Type 0 where
  pub id : String
  pub name : String
  pub updated_at : ℕ

-- The devices, the route to each of them, and the tunnels that there have been; `closed` tunnels are
-- those whose terminals and watches have been closed.
pub record Connections : Type 0 where
  pub registry : DeviceRegistry
  pub routes : String → Option ℕ
  pub device_of : ℕ → String
  pub tunnels : ℕ
  pub closed : ℕ → Bool

unfoldable pub no_connections : Connections
no_connections = record {
  registry = λ _. none;
  routes = λ _. none;
  device_of = λ _. "";
  tunnels = 0;
  closed = λ _. false;
}

abbrev pub is_routed : Option ℕ → Bool
is_routed none = false
is_routed (some n) = true

abbrev pub is_tunnel : ℕ → Option ℕ → Bool
is_tunnel n none = false
is_tunnel n (some m) = eqb m n

abbrev pub set_route_to : (String → Option ℕ) → String → Option ℕ → String → Option ℕ
set_route_to routes id n other = if other == id then n else routes other

-- closeTerminals and closeWorkspaceWatches of a tunnel, if there is one.
abbrev pub close_tunnel : Option ℕ → (ℕ → Bool) → ℕ → Bool
close_tunnel o closed n = if is_tunnel n o then true else closed n

-- The tunnel of a device that has said hello: it is registered, and then is the route.
unfoldable pub greet : String → String → ℕ → Connections → Connections
unfolding register_device
greet id name now c = record c { registry = register_device id name now c.registry }

-- setRoute, for a new tunnel
unfoldable pub set_route : String → Connections → Connections
set_route id c = record c {
  routes = set_route_to c.routes id (some c.tunnels);
  device_of = λ n. if eqb n c.tunnels then id else c.device_of n;
  tunnels = c.tunnels + 1;
  closed = close_tunnel (c.routes id) c.closed;
}

-- clearRoute, and whether the tunnel was the route
unfoldable pub clear_route : String → ℕ → Connections → Connections × Bool
clear_route id n c =
    if is_tunnel n (c.routes id)
    then (record c { routes = set_route_to c.routes id none }, true)
    else (c, false)

-- The end of handleAgentTunnel. A device is marked offline afterwards, if the tunnel was the route.
unfoldable pub end_tunnel : ℕ → Connections → Connections × Bool
unfolding clear_route
end_tunnel n c =
    let (c', was_route) = clear_route (c.device_of n) n c in
    (record c' { closed = close_tunnel (some n) c'.closed }, was_route)

unfoldable pub set_offline : String → ℕ → Connections → Connections
unfolding mark_offline
set_offline id now c = record c { registry = mark_offline id now c.registry }

-- disconnectDevice
unfoldable pub disconnect_device : String → ℕ → Connections → Connections
unfolding mark_offline
disconnect_device id now c = record c {
  routes = set_route_to c.routes id none;
  closed = close_tunnel (c.routes id) c.closed;
  registry = mark_offline id now c.registry;
}

abbrev pub status_of : Bool → String
status_of b = if b then "online" else "offline"

-- deviceSummary
unfoldable pub device_summary : Connections → Device → DeviceSummary
unfolding get_device normalize_device_status
device_summary c d =
    let online = is_routed (c.routes d.id) in
    let (known, is_known) = get_device c.registry d.id in
    if is_known
    then normalize_device_status (record known {
      name = if known.name == "" then d.name else known.name;
      online = online;
      status = status_of online;
    })
    else record {
      id = d.id;
      name = d.name;
      online = online;
      status = status_of online;
      connected_at = none;
      last_seen = some d.updated_at;
    }
