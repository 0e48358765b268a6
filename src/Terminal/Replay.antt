-- ===== src/Terminal/Replay.antt =====
-- The replay that a new client gets: enqueueReplay, readReplayTail and enqueueReplayChunks in
-- internal/agent/application/task/terminal/runtime.go. The flush of the history and the reading of
-- its file are arguments.
pub mod Chunks
pub mod Complete
pub mod Keeps
mod Tests
use term_bridge.Prelude.{
  ℕ, zero, suc, ◌+◌, ◌-◌, ◌*◌, String, Bool, true, false, not, Option, none, some, List, [], ◌∷◌,
  length, take, drop, ltb, eqb, if◌then◌else◌, Result, ok, err,
}
use term_bridge.Protocol.Terminal.{
  ServerControlMessage, empty_message, type_started, type_replay_started, type_replay_finished,
}
use term_bridge.Session.State.{state_running}
use term_bridge.Terminal.Outbound.{Outbound, text, binary, outbound_size}
use term_bridge.Terminal.Client.{Client, Limits, enqueue, can_enqueue}

-- The state of an attachment, as the messages spell it.
abbrev pub attachment_attached : String
attachment_attached = "attached"

-- What opening and reading the history file gives.
pub data HistoryFile : Type 0 where
  missing unreadable : HistoryFile
  content : List ℕ → HistoryFile

pub data ReplayError : Type 0 where
  client_queue_full flush_failed read_failed : ReplayError

abbrev pub default_replay_chunk_bytes : ℕ
default_replay_chunk_bytes = 64 * 1024

-- The registry's replayMaxBytes and replayChunkBytes; 0 stands for any value that is not positive.
pub record ReplayConfig : Type 0 where
  pub replay_max_bytes : ℕ
  pub replay_chunk_bytes : ℕ

-- The bytes to replay, and whether the file holds more.
unfoldable pub read_replay_tail : ReplayConfig → HistoryFile → Result ReplayError (List ℕ × Bool)
read_replay_tail c missing = ok ([], false)
read_replay_tail c unreadable = err read_failed
read_replay_tail c (content bytes) =
    if eqb c.replay_max_bytes 0
    then ok ([], false)
    else if ltb c.replay_max_bytes (length bytes)
    then ok (drop (length bytes - c.replay_max_bytes) bytes, true)
    else ok (bytes, false)

abbrev pub started_message : String → String → String → ServerControlMessage
started_message session workspace role = record empty_message {
  type = type_started;
  session_id = session;
  workspace_id = workspace;
  state = state_running;
  lifecycle_state = state_running;
  attachment_state = attachment_attached;
  control_role = role;
}

abbrev pub replay_started_message : ServerControlMessage
replay_started_message = record empty_message { type = type_replay_started }

abbrev pub replay_finished_message : Bool → ServerControlMessage
replay_finished_message truncated = record empty_message {
  type = type_replay_finished;
  truncated = some truncated;
}

module _ (limits : Limits) where
  -- The loop over the chunks, on fuel: `rest` are the bytes from `start` on. Each round consumes a
  -- byte, so their number is enough fuel.
  unfoldable pub chunk_loop : ℕ → ℕ → Outbound → Client → List ℕ → Client × Bool
  chunk_loop zero chunk reserved c rest = (c, true)
  chunk_loop (suc f) chunk reserved c [] = (c, true)
  chunk_loop (suc f) chunk reserved c (b ∷ rest) =
      let piece = take chunk (b ∷ rest) in
      let (c', sent) = enqueue limits c (binary piece) in
      let later = chunk_loop f chunk reserved c' (drop chunk (b ∷ rest)) in
      if not (can_enqueue limits c (outbound_size reserved + length piece))
      then (c, false)
      else if not sent
      then (c', false)
      else later

  unfoldable pub enqueue_replay_chunks : ReplayConfig → Client → List ℕ → Outbound → Client × Bool
  unfolding chunk_loop
  enqueue_replay_chunks config c bytes reserved =
      let chunk =
        if eqb config.replay_chunk_bytes 0
        then default_replay_chunk_bytes
        else config.replay_chunk_bytes in
      chunk_loop (length bytes) chunk reserved c bytes

  -- From the reading of the history on. The last frame points at the flag, so it shows whether the
  -- chunks were cut short, while the size that is reserved for it is the same for both values.
  unfoldable pub finish_replay :
      ReplayConfig
      → Client
      → Result ReplayError (List ℕ × Bool)
      → Client × Result ReplayError (Unit {0})
  unfolding enqueue_replay_chunks
  finish_replay config c (err e) = (c, err e)
  finish_replay config c (ok ([], truncated)) =
      let (c', sent) = enqueue limits c (text (replay_finished_message truncated)) in
      (c', if sent then ok tt else err client_queue_full)
  finish_replay config c (ok (b ∷ bytes, truncated)) =
      let reserved = text (replay_finished_message truncated) in
      let (c', all_sent) = enqueue_replay_chunks config c (b ∷ bytes) reserved in
      let flag = if all_sent then truncated else true in
      let (c'', sent) = enqueue limits c' (text (replay_finished_message flag)) in
      (c'', if sent then ok tt else err client_queue_full)

  -- `session`, `workspace` and `role` are the fields of the first message.
  unfoldable pub enqueue_replay :
      ReplayConfig
      → String
      → String
      → String
      → Bool
      → HistoryFile
      → Client
      → Client × Result ReplayError (Unit {0})
  unfolding finish_replay read_replay_tail
  enqueue_replay config session workspace role flushed file c =
      let (c1, sent1) = enqueue limits c (text (started_message session workspace role)) in
      let (c2, sent2) = enqueue limits c1 (text replay_started_message) in
      if not sent1
      then (c1, err client_queue_full)
      else if not sent2
      then (c2, err client_queue_full)
      else if not flushed
      then (c2, err flush_failed)
      else finish_replay config c2 (read_replay_tail config file)
