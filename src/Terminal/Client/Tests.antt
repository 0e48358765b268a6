-- ===== src/Terminal/Client/Tests.antt =====
-- Runs of a client's queue.
use term_bridge.Prelude.{◌≡◌, refl, false, List, [], ◌∷◌, ◌++◌}
use term_bridge.Terminal.Outbound.{Outbound, binary, outbound_size}
use term_bridge.Terminal.Client.{Limits, new_client, enqueue}
use term_bridge.Terminal.Client.Accounting.{
  Event, enqueues, receives, run, IsAccounted, accepted, delivered, client-IsAccounted, queue_fifo,
}

-- Room for two frames and six bytes.
abbrev small : Limits
small = record { client_queue_size = 2; client_queue_bytes = 6 }

abbrev frame : Outbound
frame = binary (1 ∷ 2 ∷ 3 ∷ [])

abbrev events : List Event
events = enqueues frame ∷ enqueues frame ∷ enqueues frame ∷ receives ∷ []

third_refused :
    (enqueue small (run small new_client (enqueues frame ∷ enqueues frame ∷ [])) frame).1 ≡ false
unfolding run enqueue outbound_size
third_refused = refl

client-IsAccounted_example : IsAccounted small (run small new_client events)
client-IsAccounted_example = client-IsAccounted small events

queue_fifo_example :
    [] ++ accepted small new_client events
    ≡ delivered small new_client events ++ (run small new_client events).queue
queue_fifo_example = queue_fifo small new_client events
