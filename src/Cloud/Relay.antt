-- ===== src/Cloud/Relay.antt =====
-- internal/cloud/api/handler/route.go: the connection of a device, by which requests wait for replies
-- and browsers follow terminals and watches, and the routes to devices of server.go. The messages are
-- a type parameter; a frame is its stream and what dispatch tells apart of its payload. Whether a
-- write to a browser succeeds is an argument. What was written to a browser is kept with its relay.
pub mod Streams
pub mod Local
mod Tests
use term_bridge.Prelude.{
  ℕ, ◌+◌, String, Bool, true, false, not, ◌&&◌, ◌||◌, ◌==◌, eqb, if◌then◌else◌, Option, none, some,
  List, [], ◌∷◌, ◌++◌,
}

pub data RelayPayload (M : Type 0) : Type 0 where
  -- One of the replies of isRuntimeResponse.
  response : M → RelayPayload M
  frame_error : String → RelayPayload M
  terminal_output : List ℕ → RelayPayload M
  terminal_control : M → RelayPayload M
  terminal_closed close_stream : RelayPayload M
  fs_watch_subscribed fs_change_event : M → RelayPayload M
  other_payload : RelayPayload M

pub record RelayFrame (M : Type 0) : Type 0 where
  pub stream_id : String
  pub payload : RelayPayload M

-- What a browser is sent.
pub data ToBrowser (M : Type 0) : Type 0 where
  binary : List ℕ → ToBrowser M
  text : M → ToBrowser M
  error_text : String → ToBrowser M

pub data RelayKind : Type 0 where
  terminal watch : RelayKind

abbrev pub same_kind : RelayKind → RelayKind → Bool
same_kind terminal terminal = true
same_kind terminal watch = false
same_kind watch terminal = false
same_kind watch watch = true

-- A browser that follows a stream. It is `mapped` while its route knows it.
pub record BrowserRelay (M : Type 0) : Type 0 where
  pub stream_id : String
  pub kind : RelayKind
  pub mapped : Bool
  pub written : List (ToBrowser M)
  pub is_closed : Bool
  pub done : Bool

-- A request that waits has a channel for one reply.
pub record AgentRoute (M : Type 0) : Type 0 where
  pub pending : String → Option (Option (RelayFrame M))
  pub relays : List (BrowserRelay M)

module _ {M : Type 0} where
  unfoldable pub new_agent_route : AgentRoute M
  new_agent_route = record { pending = λ _. none; relays = [] }

  abbrev pub set_pending :
      (String → Option (Option (RelayFrame M)))
      → String
      → Option (Option (RelayFrame M))
      → String
      → Option (Option (RelayFrame M))
  set_pending p id v other = if other == id then v else p other

  -- The three parts of request: it waits, takes its reply, and gives its place back.
  unfoldable pub start_request : String → AgentRoute M → AgentRoute M
  start_request id r = record r { pending = set_pending r.pending id (some none) }

  abbrev pub taken_reply : Option (Option (RelayFrame M)) → Option (RelayFrame M)
  taken_reply none = none
  taken_reply (some o) = o

  unfoldable pub finish_request : String → AgentRoute M → AgentRoute M × Option (RelayFrame M)
  finish_request id r =
      (record r { pending = set_pending r.pending id none }, taken_reply (r.pending id))

  unfoldable pub is_runtime_response : RelayFrame M → Bool
  is_runtime_response f = elim f.payload [
    | response m ↦ true
    | frame_error e ↦ true
    | terminal_output d ↦ false
    | terminal_control m ↦ false
    | terminal_closed ↦ false
    | close_stream ↦ false
    | fs_watch_subscribed m ↦ false
    | fs_change_event m ↦ false
    | other_payload ↦ false
  ]

  abbrev pub is_waiting : Option (Option (RelayFrame M)) → Bool
  is_waiting none = false
  is_waiting (some o) = true

  -- A second reply finds the channel full and is dropped.
  abbrev pub put_reply :
      RelayFrame M → Option (Option (RelayFrame M)) → Option (Option (RelayFrame M))
  put_reply f none = none
  put_reply f (some none) = some (some f)
  put_reply f (some (some g)) = some (some g)

  abbrev pub is_at : RelayKind → String → BrowserRelay M → Bool
  is_at k id b = b.mapped && same_kind b.kind k && b.stream_id == id

  unfoldable pub has_relay : RelayKind → String → List (BrowserRelay M) → Bool
  has_relay k id [] = false
  has_relay k id (b ∷ bs) = is_at k id b || has_relay k id bs

  unfoldable pub change_relays :
      (BrowserRelay M → Bool)
      → (BrowserRelay M → BrowserRelay M)
      → List (BrowserRelay M)
      → List (BrowserRelay M)
  change_relays p f [] = []
  change_relays p f (b ∷ bs) = (if p b then f b else b) ∷ change_relays p f bs

  abbrev pub unmap_relay : BrowserRelay M → BrowserRelay M
  unmap_relay b = record b { mapped = false }

  -- The browser's connection is closed and its handler ends.
  abbrev pub end_relay : BrowserRelay M → BrowserRelay M
  end_relay b = record b { is_closed = true; done = true }

  abbrev pub write_browser : Bool → ToBrowser M → BrowserRelay M → BrowserRelay M
  write_browser written m b =
      if written then record b { written = b.written ++ m ∷ [] } else end_relay b

  -- removeTerminal and removeWorkspaceWatch
  unfoldable pub remove_relay : RelayKind → String → AgentRoute M → AgentRoute M
  unfolding change_relays
  remove_relay k id r = record r { relays = change_relays (is_at k id) unmap_relay r.relays }

  -- addTerminal and addWorkspaceWatch
  unfoldable pub add_relay : RelayKind → String → AgentRoute M → AgentRoute M
  unfolding remove_relay
  add_relay k id r = record r {
    relays =
        record {
          stream_id = id;
          kind = k;
          mapped = true;
          written = [];
          is_closed = false;
          done = false;
        }
        ∷ (remove_relay k id r).relays;
  }

  abbrev pub ends_after : ToBrowser M → Bool → BrowserRelay M → BrowserRelay M
  ends_after m written b =
      end_relay (if written then record b { written = b.written ++ m ∷ [] } else b)

  -- dispatch of a terminalRelay, and whether it knows the payload.
  unfoldable pub terminal_dispatch :
      Bool → RelayPayload M → Option (BrowserRelay M → BrowserRelay M)
  terminal_dispatch written (terminal_output d) = some (write_browser written (binary d))
  terminal_dispatch written (terminal_control m) = some (write_browser written (text m))
  terminal_dispatch written (frame_error e) = some (ends_after (error_text e) written)
  terminal_dispatch written terminal_closed = some end_relay
  terminal_dispatch written close_stream = some end_relay
  terminal_dispatch written (response m) = none
  terminal_dispatch written (fs_watch_subscribed m) = none
  terminal_dispatch written (fs_change_event m) = none
  terminal_dispatch written other_payload = none

  -- dispatch of a workspaceWatchRelay
  unfoldable pub watch_dispatch : Bool → RelayPayload M → Option (BrowserRelay M → BrowserRelay M)
  watch_dispatch written (fs_watch_subscribed m) = some (write_browser written (text m))
  watch_dispatch written (fs_change_event m) = some (write_browser written (text m))
  watch_dispatch written (frame_error e) = some end_relay
  watch_dispatch written close_stream = some end_relay
  watch_dispatch written terminal_closed = none
  watch_dispatch written (response m) = none
  watch_dispatch written (terminal_output d) = none
  watch_dispatch written (terminal_control m) = none
  watch_dispatch written other_payload = none

  abbrev pub apply_relay :
      RelayKind
      → String
      → Option (BrowserRelay M → BrowserRelay M)
      → AgentRoute M
      → AgentRoute M × Bool
  apply_relay k id none r = (r, false)
  apply_relay k id (some f) r = (record r { relays = change_relays (is_at k id) f r.relays }, true)

  unfoldable pub dispatch : Bool → RelayFrame M → AgentRoute M → AgentRoute M × Bool
  unfolding is_runtime_response has_relay change_relays terminal_dispatch watch_dispatch
  dispatch written f r =
      if is_waiting (r.pending f.stream_id) && is_runtime_response f
      then (
        record r {
          pending = set_pending r.pending f.stream_id (put_reply f (r.pending f.stream_id));
        },
        true,
      )
      else if has_relay terminal f.stream_id r.relays
      then apply_relay terminal f.stream_id (terminal_dispatch written f.payload) r
      else if has_relay watch f.stream_id r.relays
      then apply_relay watch f.stream_id (watch_dispatch written f.payload) r
      else (r, false)

  abbrev pub is_kind : RelayKind → BrowserRelay M → Bool
  is_kind k b = b.mapped && same_kind b.kind k

  -- closeTerminals, where the browser is told why, and closeWorkspaceWatches
  unfoldable pub close_terminals : Bool → String → AgentRoute M → AgentRoute M
  unfolding change_relays
  close_terminals written reason r = record r {
    relays =
        change_relays (is_kind terminal)
          (λ b. unmap_relay (ends_after (error_text reason) written b)) r.relays;
  }

  unfoldable pub close_workspace_watches : AgentRoute M → AgentRoute M
  unfolding change_relays
  close_workspace_watches r = record r {
    relays = change_relays (is_kind watch) (λ b. unmap_relay (end_relay b)) r.relays;
  }
