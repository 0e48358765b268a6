-- ===== src/Cloud/Relay/Local.antt =====
-- A frame changes nothing of other streams.
use term_bridge.Prelude.{
  String, Bool, true, false, ◌&&◌, ◌==◌, ◌≡◌, refl, sym, ap, ◌∙◌, if◌then◌else◌, if_both, Option,
  none, some, List, [], ◌∷◌, arith,
}
use term_bridge.Cloud.Relay.{
  RelayPayload, terminal_output, terminal_control, frame_error, terminal_closed, close_stream,
  response, fs_watch_subscribed, fs_change_event, other_payload, RelayFrame, RelayKind, terminal,
  watch, BrowserRelay, AgentRoute, is_runtime_response, is_waiting, put_reply, is_at, has_relay,
  change_relays, terminal_dispatch, watch_dispatch, apply_relay, dispatch,
}
use term_bridge.Cloud.Relay.Streams.{apply_relay-pending}

module _ {M : Type 0} where
  -- The browsers of other streams.
  unfoldable pub others : String → List (BrowserRelay M) → List (BrowserRelay M)
  others id [] = []
  others id (b ∷ bs) = let rest = others id bs in if b.stream_id == id then rest else b ∷ rest

  change_relays-others :
      (k : RelayKind) (id : String) (f : BrowserRelay M → BrowserRelay M)
      (bs : List (BrowserRelay M))
      → ((b : BrowserRelay M) → (f b).stream_id ≡ b.stream_id)
      → others id (change_relays (is_at k id) f bs) ≡ others id bs
  unfolding others change_relays
  change_relays-others k id f [] same = refl
  change_relays-others k id f (b ∷ bs) same =
      let left = others id (change_relays (is_at k id) f bs) in
      let right = others id bs in
      let ih = change_relays-others k id f bs same in
      if_both
        (λ (x : BrowserRelay M).
          (if x.stream_id == id then left else x ∷ left)
          ≡ (if b.stream_id == id then right else b ∷ right))
        (is_at k id b) (f b) b
        (λ y.
          let at : (b.stream_id == id) ≡ true = ground (arith, y) in
          ap (λ c. if c then left else f b ∷ left) (ap (λ x. x == id) (same b) ∙ at)
          ∙ ih
          ∙ sym (ap (λ c. if c then right else b ∷ right) at))
        (λ _. ap (λ q. if b.stream_id == id then q else b ∷ q) ih)

  -- Whether a change keeps the stream of a browser.
  abbrev IsKept : Option (BrowserRelay M → BrowserRelay M) → Type 0
  IsKept none = Unit
  IsKept (some f) = (b : BrowserRelay M) → (f b).stream_id ≡ b.stream_id

  if_kept :
      (b : Bool) (x y : BrowserRelay M) (id : String)
      → x.stream_id ≡ id
      → y.stream_id ≡ id
      → (if b then x else y).stream_id ≡ id
  if_kept true x y id h k = h
  if_kept false x y id h k = k

  terminal_dispatch-IsKept :
      (written : Bool) (p : RelayPayload M) → IsKept (terminal_dispatch written p)
  unfolding terminal_dispatch
  terminal_dispatch-IsKept written (terminal_output d) =
      λ b. if_kept written _ _ b.stream_id refl refl
  terminal_dispatch-IsKept written (terminal_control m) =
      λ b. if_kept written _ _ b.stream_id refl refl
  terminal_dispatch-IsKept written (frame_error e) = λ b. if_kept written _ _ b.stream_id refl refl
  terminal_dispatch-IsKept written terminal_closed = λ b. refl
  terminal_dispatch-IsKept written close_stream = λ b. refl
  terminal_dispatch-IsKept written (response m) = tt
  terminal_dispatch-IsKept written (fs_watch_subscribed m) = tt
  terminal_dispatch-IsKept written (fs_change_event m) = tt
  terminal_dispatch-IsKept written other_payload = tt

  watch_dispatch-IsKept : (written : Bool) (p : RelayPayload M) → IsKept (watch_dispatch written p)
  unfolding watch_dispatch
  watch_dispatch-IsKept written (fs_watch_subscribed m) =
      λ b. if_kept written _ _ b.stream_id refl refl
  watch_dispatch-IsKept written (fs_change_event m) = λ b. if_kept written _ _ b.stream_id refl refl
  watch_dispatch-IsKept written (frame_error e) = λ b. refl
  watch_dispatch-IsKept written close_stream = λ b. refl
  watch_dispatch-IsKept written terminal_closed = tt
  watch_dispatch-IsKept written (response m) = tt
  watch_dispatch-IsKept written (terminal_output d) = tt
  watch_dispatch-IsKept written (terminal_control m) = tt
  watch_dispatch-IsKept written other_payload = tt

  apply_relay-others :
      (k : RelayKind) (id : String) (o : Option (BrowserRelay M → BrowserRelay M))
      (r : AgentRoute M)
      → IsKept o
      → others id (apply_relay k id o r).0.relays ≡ others id r.relays
  apply_relay-others k id none r h = refl
  apply_relay-others k id (some f) r h = change_relays-others k id f r.relays h

  -- What a frame of a stream leaves as it is.
  abbrev pub IsLocal : String → AgentRoute M → AgentRoute M → Type 0
  IsLocal id r r' =
      (others id r'.relays ≡ others id r.relays)
      × ((other : String) → (other == id) ≡ false → r'.pending other ≡ r.pending other)

  IsLocal-relay :
      (k : RelayKind) (id : String) (o : Option (BrowserRelay M → BrowserRelay M))
      (r : AgentRoute M)
      → IsKept o
      → IsLocal id r (apply_relay k id o r).0
  IsLocal-relay k id o r h =
      (apply_relay-others k id o r h, λ i _. ap (λ p. p i) (apply_relay-pending k id o r))

  -- A frame that arrives changes nothing of other streams: neither the replies that requests of other streams wait for, nor any browser that follows another stream.
  pub dispatch-IsLocal :
      (written : Bool) (f : RelayFrame M) (r : AgentRoute M)
      → IsLocal f.stream_id r (dispatch written f r).0
  unfolding dispatch
  dispatch-IsLocal written f r =
      let P : AgentRoute M × Bool → Type 0 = λ x. IsLocal f.stream_id r x.0 in
      if_both P (is_waiting (r.pending f.stream_id) && is_runtime_response f) _ _
        (λ _.
          (refl, λ i n. ap (λ b. if b then put_reply f (r.pending f.stream_id) else r.pending i) n))
        (λ _.
          if_both P (has_relay terminal f.stream_id r.relays) _ _
            (λ _.
              IsLocal-relay terminal f.stream_id (terminal_dispatch written f.payload) r
                (terminal_dispatch-IsKept written f.payload))
            (λ _.
              if_both P (has_relay watch f.stream_id r.relays) _ _
                (λ _.
                  IsLocal-relay watch f.stream_id (watch_dispatch written f.payload) r
                    (watch_dispatch-IsKept written f.payload))
                (λ _. (refl, λ _ _. refl))))
