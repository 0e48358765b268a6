-- ===== src/Cloud/Relay/Streams.antt =====
-- A request gets a reply to itself.
use term_bridge.Prelude.{
  String, Bool, true, false, ◌&&◌, ◌==◌, eq_iff, ◌≡◌, refl, sym, subst, if◌then◌else◌, if_both,
  Option, none, some, arith,
}
use term_bridge.Cloud.Relay.{
  RelayFrame, RelayKind, terminal, watch, BrowserRelay, AgentRoute, new_agent_route, set_pending,
  start_request, taken_reply, finish_request, is_runtime_response, is_waiting, put_reply, has_relay,
  remove_relay, add_relay, terminal_dispatch, watch_dispatch, apply_relay, dispatch,
  close_terminals, close_workspace_watches,
}

module _ {M : Type 0} where
  -- What the goroutines of the cloud do with the connection of a device, in any order.
  pub data RouteStep : AgentRoute M → AgentRoute M → Type 0 where
    starts : {r : AgentRoute M} (id : String) → RouteStep r (start_request id r)
    finishes : {r : AgentRoute M} (id : String) → RouteStep r (finish_request id r).0
    receives :
        {r : AgentRoute M} (written : Bool) (f : RelayFrame M)
        → RouteStep r (dispatch written f r).0
    adds : {r : AgentRoute M} (k : RelayKind) (id : String) → RouteStep r (add_relay k id r)
    removes : {r : AgentRoute M} (k : RelayKind) (id : String) → RouteStep r (remove_relay k id r)
    closes_terminals :
        {r : AgentRoute M} (written : Bool) (reason : String)
        → RouteStep r (close_terminals written reason r)
    closes_watches : {r : AgentRoute M} → RouteStep r (close_workspace_watches r)

  pub data RouteReached : AgentRoute M → Type 0 where
    connected : RouteReached new_agent_route
    then_step : {r r' : AgentRoute M} → RouteReached r → RouteStep r r' → RouteReached r'

  -- A reply to a request on a stream.
  abbrev pub IsReply : String → RelayFrame M → Type 0
  IsReply id f = (f.stream_id ≡ id) × (is_runtime_response f ≡ true)

  -- What may be in the channel of a request.
  abbrev IsChannel : String → Option (Option (RelayFrame M)) → Type 0
  IsChannel id none = Unit
  IsChannel id (some none) = Unit
  IsChannel id (some (some f)) = IsReply id f

  abbrev IsRoute : AgentRoute M → Type 0
  IsRoute r = (id : String) → IsChannel id (r.pending id)

  put_reply-IsChannel :
      (id : String) (f : RelayFrame M) (o : Option (Option (RelayFrame M)))
      → IsReply id f
      → IsChannel id o
      → IsChannel id (put_reply f o)
  put_reply-IsChannel id f none h k = tt
  put_reply-IsChannel id f (some none) h k = h
  put_reply-IsChannel id f (some (some g)) h k = k

  set_pending-IsRoute :
      (p : String → Option (Option (RelayFrame M))) (id : String)
      (v : Option (Option (RelayFrame M)))
      → ((i : String) → IsChannel i (p i))
      → IsChannel id v
      → (i : String) → IsChannel i (set_pending p id v i)
  set_pending-IsRoute p id v h k i =
      if_both (IsChannel i) (i == id) v (p i)
        (λ y. subst (λ x. IsChannel x v) (sym ((eq_iff i id).0 y)) k) (λ _. h i)

  pub apply_relay-pending :
      (k : RelayKind) (id : String) (o : Option (BrowserRelay M → BrowserRelay M))
      (r : AgentRoute M)
      → (apply_relay k id o r).0.pending ≡ r.pending
  apply_relay-pending k id none r = refl
  apply_relay-pending k id (some f) r = refl

  -- A frame that is not a reply to a request that waits changes no channel.
  abbrev dispatch_relay : Bool → RelayFrame M → AgentRoute M → AgentRoute M × Bool
  dispatch_relay written f r =
      if has_relay terminal f.stream_id r.relays
      then apply_relay terminal f.stream_id (terminal_dispatch written f.payload) r
      else if has_relay watch f.stream_id r.relays
      then apply_relay watch f.stream_id (watch_dispatch written f.payload) r
      else (r, false)

  dispatch_relay-pending :
      (written : Bool) (f : RelayFrame M) (r : AgentRoute M)
      → (dispatch_relay written f r).0.pending ≡ r.pending
  dispatch_relay-pending written f r =
      let P : AgentRoute M × Bool → Type 0 = λ x. x.0.pending ≡ r.pending in
      if_both P (has_relay terminal f.stream_id r.relays) _ _
        (λ _. apply_relay-pending terminal f.stream_id (terminal_dispatch written f.payload) r)
        (λ _.
          if_both P (has_relay watch f.stream_id r.relays) _ _
            (λ _. apply_relay-pending watch f.stream_id (watch_dispatch written f.payload) r)
            (λ _. refl))

  dispatch-IsRoute :
      (written : Bool) (f : RelayFrame M) (r : AgentRoute M)
      → IsRoute r
      → IsRoute (dispatch written f r).0
  unfolding dispatch
  dispatch-IsRoute written f r h =
      if_both (λ (x : AgentRoute M × Bool). IsRoute x.0)
        (is_waiting (r.pending f.stream_id) && is_runtime_response f) _ (dispatch_relay written f r)
        (λ y. set_pending-IsRoute r.pending f.stream_id (put_reply f (r.pending f.stream_id)) h (
          put_reply-IsChannel f.stream_id f (r.pending f.stream_id) (refl, ground (arith, y))
            (h f.stream_id)))
        (λ _ i. subst (λ p. IsChannel i (p i)) (sym (dispatch_relay-pending written f r)) (h i))

  RouteStep-IsRoute : (r r' : AgentRoute M) → RouteStep r r' → IsRoute r → IsRoute r'
  unfolding start_request finish_request add_relay remove_relay close_terminals
      close_workspace_watches
  RouteStep-IsRoute r r' (starts id) h = set_pending-IsRoute r.pending id (some none) h tt
  RouteStep-IsRoute r r' (finishes id) h = set_pending-IsRoute r.pending id none h tt
  RouteStep-IsRoute r r' (receives written f) h = dispatch-IsRoute written f r h
  RouteStep-IsRoute r r' (adds k id) h = h
  RouteStep-IsRoute r r' (removes k id) h = h
  RouteStep-IsRoute r r' (closes_terminals written reason) h = h
  RouteStep-IsRoute r r' closes_watches h = h

  RouteReached-IsRoute : (r : AgentRoute M) → RouteReached r → IsRoute r
  unfolding new_agent_route
  RouteReached-IsRoute r connected = λ id. tt
  RouteReached-IsRoute r (then_step before step) =
      RouteStep-IsRoute _ r step (RouteReached-IsRoute _ before)

  abbrev IsTaken : String → Option (RelayFrame M) → Type 0
  IsTaken id none = Unit
  IsTaken id (some f) = IsReply id f

  taken_reply-IsTaken :
      (id : String) (o : Option (Option (RelayFrame M)))
      → IsChannel id o
      → IsTaken id (taken_reply o)
  taken_reply-IsTaken id none h = tt
  taken_reply-IsTaken id (some none) h = tt
  taken_reply-IsTaken id (some (some g)) h = h

  -- In any order of requests, frames, browsers and closes, the reply that a request takes has the stream of this request, and is one of the replies or an error: never a frame of a terminal or a watch, or of another request.
  pub finish_request-IsReply :
      (r : AgentRoute M) (id : String) (f : RelayFrame M)
      → RouteReached r
      → (finish_request id r).1 ≡ some f
      → IsReply id f
  unfolding finish_request
  finish_request-IsReply r id f reached e =
      subst (IsTaken id) e
        (taken_reply-IsTaken id (r.pending id) (RouteReached-IsRoute r reached id))
