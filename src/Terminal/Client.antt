-- ===== src/Terminal/Client.antt =====
-- Client in internal/agent/application/task/terminal/registry.go: one browser connection's queue.
-- Each method holds the client's mutex throughout, so a method is one step. The channel is the
-- list of its frames, oldest first; `in_flight` are the frames received from it and not yet marked
-- as sent, which the program keeps in a local variable of the connection's loop.
pub mod Accounting
mod Tests
use term_bridge.Prelude.{
  ℕ, ◌+◌, ◌-◌, String, Bool, true, false, not, ◌&&◌, ◌||◌, Option, none, some, List, [], ◌∷◌, ◌++◌,
  length, ltb, leb, if◌then◌else◌,
}
use term_bridge.Terminal.Outbound.{Outbound, binary, text, outbound_size}

-- The registry's limits for every client: clientQueueSize and clientQueueBytes.
pub record Limits : Type 0 where
  pub client_queue_size : ℕ
  pub client_queue_bytes : ℕ

pub record Client : Type 0 where
  pub queue : List Outbound
  pub queue_closed : Bool
  pub queued_bytes : ℕ
  pub sent_binary_chunks : ℕ
  pub sent_binary_bytes : ℕ
  -- sync.Once: whether its function has been called.
  pub once_done : Bool
  pub in_flight : List Outbound

abbrev pub new_client : Client
new_client = record {
  queue = [];
  queue_closed = false;
  queued_bytes = 0;
  sent_binary_chunks = 0;
  sent_binary_bytes = 0;
  once_done = false;
  in_flight = [];
}

module _ (limits : Limits) where
  -- A send on a full channel takes the default branch.
  unfoldable pub enqueue : Client → Outbound → Client × Bool
  enqueue c o =
      let size = outbound_size o in
      if c.queue_closed
      then (c, false)
      else if ltb limits.client_queue_bytes (c.queued_bytes + size)
      then (c, false)
      else if ltb (length c.queue) limits.client_queue_size
      then (record c { queue = c.queue ++ o ∷ []; queued_bytes = c.queued_bytes + size }, true)
      else (c, false)

  unfoldable pub can_enqueue : Client → ℕ → Bool
  can_enqueue c size =
      if c.queue_closed
      then false
      else leb (c.queued_bytes + size) limits.client_queue_bytes
        && ltb (length c.queue) limits.client_queue_size

-- Subtraction on ℕ stops at 0, as the test `queuedBytes < 0` makes it do.
unfoldable pub mark_sent : Client → Outbound → Client
mark_sent c o =
    if ltb c.queued_bytes (outbound_size o)
    then record c { queued_bytes = 0 }
    else record c { queued_bytes = c.queued_bytes - outbound_size o }

unfoldable pub mark_binary_sent : Client → ℕ → Client × ℕ × ℕ
mark_binary_sent c bytes =
    let chunks = c.sent_binary_chunks + 1 in
    let total = c.sent_binary_bytes + bytes in
    (record c { sent_binary_chunks = chunks; sent_binary_bytes = total }, chunks, total)

-- A closed channel keeps its frames for the receiver. A second call does nothing, so the channel
-- is closed once.
unfoldable pub close_queue : Client → Client
close_queue c = if c.queue_closed then c else record c { queue_closed = true }

unfoldable pub receive_from : Client → List Outbound → Client × Option Outbound
receive_from c [] = (c, none)
receive_from c (o ∷ os) = (record c { queue = os; in_flight = o ∷ c.in_flight }, some o)

-- `<-c.queue` by the connection's loop: the oldest frame, or none.
unfoldable pub receive : Client → Client × Option Outbound
unfolding receive_from
receive c = receive_from c c.queue
