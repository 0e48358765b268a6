-- ===== src/Cloud/Devices/Tests.antt =====
-- A device that connects again before its old tunnel has ended.
use term_bridge.Prelude.{false, ◌<◌, some, ◌≡◌, refl, arith}
use term_bridge.Cloud.Devices.{
  Connections, no_connections, set_offline, mark_offline, greet, set_route, clear_route, end_tunnel,
  device_summary, get_device, normalize_device_status, register_device, clone_device_summary,
}
use term_bridge.Cloud.Devices.Routes.{
  TunnelsReached, at_start, then_step, greets, routes_to, ends, IsRouted, routes-IsRouted,
}

abbrev first : Connections
first = set_route "laptop" (greet "laptop" "Laptop" 1 no_connections)

abbrev second : Connections
second = set_route "laptop" (greet "laptop" "Laptop" 2 first)

reconnected : Connections
reconnected = (end_tunnel 0 second).0

first_opened : 0 < second.tunnels
unfolding set_route greet no_connections
first_opened = ground arith

reconnected-TunnelsReached : TunnelsReached reconnected
unfolding reconnected
reconnected-TunnelsReached =
    then_step
      (then_step
        (then_step
          (then_step (then_step at_start (greets "laptop" "Laptop" 1)) (routes_to "laptop"))
          (greets "laptop" "Laptop" 2))
        (routes_to "laptop"))
      (ends 0 first_opened)

routes-IsRouted_example : IsRouted reconnected
routes-IsRouted_example = routes-IsRouted reconnected reconnected-TunnelsReached

new_tunnel_stays : reconnected.routes "laptop" ≡ some 1
unfolding reconnected end_tunnel clear_route set_route greet no_connections
new_tunnel_stays = refl

shown_online :
    (device_summary reconnected (record { id = "laptop"; name = ""; updated_at = 0 })).status
    ≡ "online"
unfolding device_summary get_device normalize_device_status register_device clone_device_summary
    reconnected end_tunnel clear_route set_route greet no_connections
shown_online = refl

-- The old tunnel ends as the route, the device connects again, and then the old one's handler goes on.
abbrev late_offline : Connections
late_offline =
    set_offline "laptop" 3 (set_route "laptop" (greet "laptop" "Laptop" 2 (end_tunnel 0 first).0))

registered_as_offline :
    (get_device late_offline.registry "laptop").0.online ≡ false
    × (late_offline.routes "laptop" ≡ some 1)
unfolding get_device normalize_device_status register_device clone_device_summary end_tunnel
    clear_route set_route greet no_connections set_offline mark_offline
registered_as_offline = (refl, refl)
