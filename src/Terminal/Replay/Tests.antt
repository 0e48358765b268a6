-- ===== src/Terminal/Replay/Tests.antt =====
-- A replay of a short history in chunks of two bytes.
use term_bridge.Prelude.{◌≡◌, refl, true, [], ◌∷◌, err}
use term_bridge.Terminal.Outbound.{outbound_size}
use term_bridge.Terminal.Client.{Limits, new_client, enqueue, can_enqueue}
use term_bridge.Terminal.Replay.{
  ReplayConfig, HistoryFile, content, client_queue_full, enqueue_replay,
}
use term_bridge.Terminal.Replay.Complete.{IsReplay, enqueue_replay_complete}

abbrev roomy : Limits
roomy = record { client_queue_size = 8; client_queue_bytes = 4096 }

abbrev chunks_of_two : ReplayConfig
chunks_of_two = record { replay_max_bytes = 100; replay_chunk_bytes = 2 }

abbrev history : HistoryFile
history = content (1 ∷ 2 ∷ 3 ∷ 4 ∷ 5 ∷ [])

enqueue_replay_complete_example :
    IsReplay "s" "w" "controller" chunks_of_two history
      (enqueue_replay roomy chunks_of_two "s" "w" "controller" true history new_client).0.queue
unfolding enqueue_replay enqueue outbound_size can_enqueue
enqueue_replay_complete_example =
    enqueue_replay_complete roomy "s" "w" "controller" chunks_of_two history true new_client refl
      refl

-- Four frames leave no room for replay_finished, so the whole attach fails.
no_room_for_the_end :
    (enqueue_replay
      (record { client_queue_size = 5; client_queue_bytes = 4096 })
      chunks_of_two
      "s"
      "w"
      "controller"
      true
      history
      new_client).1
    ≡ err client_queue_full
unfolding enqueue_replay enqueue outbound_size can_enqueue
no_room_for_the_end = refl
