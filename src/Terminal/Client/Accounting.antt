-- ===== src/Terminal/Client/Accounting.antt =====
-- The byte count and the order of a client's queue in registry.go, over any interleaving of the
-- program's senders with the loop of the client's connection.
use term_bridge.Prelude.{
  ℕ, ◌+◌, ◌≤◌, ◌≡◌, refl, sym, ap, ◌∙◌, Option, none, some, List, [], ◌∷◌, ◌++◌, append-nil,
  append_assoc, arith, length, length-append, if◌then◌else◌,
}
use term_bridge.Terminal.Outbound.{Outbound, outbound_size}
use term_bridge.Terminal.Client.{
  Client, Limits, new_client, enqueue, can_enqueue, mark_sent, mark_binary_sent, close_queue,
  receive, receive_from,
}

-- `sends` ends the transfer of the frame that the connection's loop received last.
pub data Event : Type 0 where
  enqueues : Outbound → Event
  receives sends closes : Event
  counts : ℕ → Event

unfoldable pub finish_send : Client → List Outbound → Client
finish_send c [] = c
finish_send c (o ∷ os) = record (mark_sent c o) { in_flight = os }

module _ (limits : Limits) where
  unfoldable pub step : Client → Event → Client
  unfolding finish_send
  step c (enqueues o) = (enqueue limits c o).0
  step c receives = (receive c).0
  step c sends = finish_send c c.in_flight
  step c closes = close_queue c
  step c (counts n) = (mark_binary_sent c n).0

  unfoldable pub run : Client → List Event → Client
  unfolding step
  run c [] = c
  run c (e ∷ es) = run (step c e) es

abbrev pub sum_sizes : List Outbound → ℕ
sum_sizes [] = 0
sum_sizes (o ∷ os) = outbound_size o + sum_sizes os

sum_sizes-append : (xs ys : List Outbound) → sum_sizes (xs ++ ys) ≡ sum_sizes xs + sum_sizes ys
sum_sizes-append [] ys = omega arith
sum_sizes-append (x ∷ xs) ys = omega (arith, sum_sizes-append xs ys)

pub record IsAccounted (limits : Limits) (c : Client) : Type 0 where
  pub bytes : c.queued_bytes ≡ sum_sizes c.queue + sum_sizes c.in_flight
  pub bytes_fit : c.queued_bytes ≤ limits.client_queue_bytes
  pub frames_fit : length c.queue ≤ limits.client_queue_size

module _ (limits : Limits) where
  enqueue-IsAccounted :
      (c : Client) (o : Outbound) → IsAccounted limits c → IsAccounted limits (enqueue limits c o).0
  unfolding enqueue
  enqueue-IsAccounted c o h =
      ground (arith, sum_sizes-append c.queue (o ∷ []), length-append c.queue (o ∷ []))

  receive_from-IsAccounted :
      (c : Client) (os : List Outbound)
      → c.queue ≡ os
      → IsAccounted limits c
      → IsAccounted limits (receive_from c os).0
  unfolding receive_from
  receive_from-IsAccounted c [] e h = h
  receive_from-IsAccounted c (o ∷ os) e h =
      ground (arith, ap sum_sizes e, ap (length {A = Outbound}) e)

  finish_send-IsAccounted :
      (c : Client) (os : List Outbound)
      → c.in_flight ≡ os
      → IsAccounted limits c
      → IsAccounted limits (finish_send c os)
  unfolding finish_send mark_sent
  finish_send-IsAccounted c [] e h = h
  finish_send-IsAccounted c (o ∷ os) e h = ground (arith, ap sum_sizes e)

  step-IsAccounted :
      (c : Client) (e : Event) → IsAccounted limits c → IsAccounted limits (step limits c e)
  unfolding step receive close_queue mark_binary_sent
  step-IsAccounted c (enqueues o) h = enqueue-IsAccounted c o h
  step-IsAccounted c receives h = receive_from-IsAccounted c c.queue refl h
  step-IsAccounted c sends h = finish_send-IsAccounted c c.in_flight refl h
  step-IsAccounted c closes h = ground arith
  step-IsAccounted c (counts n) h = ground arith

  run-IsAccounted :
      (c : Client) (es : List Event) → IsAccounted limits c → IsAccounted limits (run limits c es)
  unfolding run
  run-IsAccounted c [] h = h
  run-IsAccounted c (e ∷ es) h = run-IsAccounted (step limits c e) es (step-IsAccounted c e h)

  -- Over any events on a new client, QueuedBytes is the size of the queued and received but unsent
  -- frames, it stays within the byte limit, and the queue within its capacity.
  pub client-IsAccounted : (es : List Event) → IsAccounted limits (run limits new_client es)
  client-IsAccounted es = run-IsAccounted new_client es (omega arith)

  -- canEnqueue at a frame's size is what enqueue of the frame returns.
  pub can_enqueue_exact :
      (c : Client) (o : Outbound) → can_enqueue limits c (outbound_size o) ≡ (enqueue limits c o).1
  unfolding can_enqueue enqueue
  can_enqueue_exact c o = ground arith

  -- Marking the frame in flight as sent never meets the clamp at 0.
  pub mark_sent_exact :
      (es : List Event) (o : Outbound) (os : List Outbound)
      → (run limits new_client es).in_flight ≡ o ∷ os
      → (mark_sent (run limits new_client es) o).queued_bytes + outbound_size o
        ≡ (run limits new_client es).queued_bytes
  unfolding mark_sent
  mark_sent_exact es o os e =
      let h = client-IsAccounted es in ground (arith, h.bytes, ap sum_sizes e)

-- What one event puts into the channel, and what it takes out.
abbrev put_frames : Limits → Client → Event → List Outbound
put_frames limits c (enqueues o) = if (enqueue limits c o).1 then o ∷ [] else []
put_frames limits c _ = []

abbrev taken_frame : Option Outbound → List Outbound
taken_frame none = []
taken_frame (some o) = o ∷ []

abbrev taken_frames : Client → Event → List Outbound
taken_frames c receives = taken_frame (receive c).1
taken_frames c _ = []

module _ (limits : Limits) where
  -- The frames that enqueue accepted during the events.
  unfoldable pub accepted : Client → List Event → List Outbound
  accepted c [] = []
  accepted c (e ∷ es) = put_frames limits c e ++ accepted (step limits c e) es

  -- The frames that the connection received during the events.
  unfoldable pub delivered : Client → List Event → List Outbound
  delivered c [] = []
  delivered c (e ∷ es) = taken_frames c e ++ delivered (step limits c e) es

  queue-enqueue :
      (c : Client) (o : Outbound)
      → (enqueue limits c o).0.queue ≡ c.queue ++ (if (enqueue limits c o).1 then o ∷ [] else [])
  unfolding enqueue
  queue-enqueue c o = ground (arith, append-nil c.queue)

  queue-receive_from :
      (c : Client) (os : List Outbound)
      → c.queue ≡ os
      → os ≡ taken_frame (receive_from c os).1 ++ (receive_from c os).0.queue
  unfolding receive_from
  queue-receive_from c [] e = sym e
  queue-receive_from c (o ∷ os) e = refl

  queue-finish_send : (c : Client) (os : List Outbound) → (finish_send c os).queue ≡ c.queue
  unfolding finish_send mark_sent
  queue-finish_send c [] = refl
  queue-finish_send c (o ∷ os) = ground arith

  queue-step :
      (c : Client) (e : Event)
      → c.queue ++ put_frames limits c e ≡ taken_frames c e ++ (step limits c e).queue
  unfolding step receive close_queue mark_binary_sent
  queue-step c (enqueues o) = sym (queue-enqueue c o)
  queue-step c receives = append-nil c.queue ∙ queue-receive_from c c.queue refl
  queue-step c sends = append-nil c.queue ∙ sym (queue-finish_send c c.in_flight)
  queue-step c closes = ground (arith, append-nil c.queue)
  queue-step c (counts n) = append-nil c.queue

  -- Frames leave the queue in the order in which they were accepted, and none is lost or made up:
  -- what was queued before and accepted since is what was delivered and what is queued now.
  pub queue_fifo :
      (c : Client) (es : List Event)
      → c.queue ++ accepted c es ≡ delivered c es ++ (run limits c es).queue
  unfolding run accepted delivered
  queue_fifo c [] = append-nil c.queue
  queue_fifo c (e ∷ es) =
      let d = step limits c e in
      sym (append_assoc c.queue (put_frames limits c e) (accepted d es))
      ∙ ap (λ l. l ++ accepted d es) (queue-step c e)
      ∙ append_assoc (taken_frames c e) d.queue (accepted d es)
      ∙ ap (◌++◌ (taken_frames c e)) (queue_fifo d es)
      ∙ sym (append_assoc (taken_frames c e) (delivered d es) (run limits d es).queue)
