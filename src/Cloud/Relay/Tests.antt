-- ===== src/Cloud/Relay/Tests.antt =====
-- One request and one terminal.
use term_bridge.Prelude.{ℕ, true, ◌≡◌, refl, some, List, [], ◌∷◌}
use term_bridge.Cloud.Relay.{
  RelayFrame, response, terminal_output, terminal, BrowserRelay, binary, AgentRoute,
  new_agent_route, start_request, finish_request, add_relay, remove_relay, dispatch,
  is_runtime_response, change_relays, has_relay, terminal_dispatch,
}
use term_bridge.Cloud.Relay.Streams.{
  RouteReached, connected, then_step, starts, receives, IsReply, finish_request-IsReply,
}
use term_bridge.Cloud.Relay.Local.{IsLocal, dispatch-IsLocal}

abbrev reply : RelayFrame ℕ
reply = record { stream_id = "req-1"; payload = response 7 }

abbrev output : RelayFrame ℕ
output = record { stream_id = "term-1"; payload = terminal_output (65 ∷ []) }

waiting : AgentRoute ℕ
waiting = add_relay terminal "term-1" (start_request "req-1" new_agent_route)

replied : AgentRoute ℕ
replied = (dispatch true reply (start_request "req-1" new_agent_route)).0

replied-RouteReached : RouteReached replied
unfolding replied
replied-RouteReached = then_step (then_step connected (starts "req-1")) (receives true reply)

reply_taken : (finish_request "req-1" replied).1 ≡ some reply
unfolding finish_request replied dispatch start_request new_agent_route is_runtime_response
reply_taken = refl

finish_request-IsReply_example : IsReply "req-1" reply
finish_request-IsReply_example =
    finish_request-IsReply replied "req-1" reply replied-RouteReached reply_taken

dispatch-IsLocal_example : IsLocal "term-1" waiting (dispatch true output waiting).0
dispatch-IsLocal_example = dispatch-IsLocal true output waiting

written_of : List (BrowserRelay ℕ) → List ℕ
written_of [] = []
written_of (b ∷ bs) = elim b.written [ [] ↦ [] | binary d ∷ ms ↦ d | m ∷ ms ↦ [] ]

output_arrives : written_of (dispatch true output waiting).0.relays ≡ 65 ∷ []
unfolding waiting dispatch start_request new_agent_route is_runtime_response add_relay remove_relay
    change_relays has_relay terminal_dispatch written_of
output_arrives = refl
