-- ===== src/Terminal/Replay/Keeps.antt =====
-- What every enqueue of registry.go keeps, enqueueReplay of runtime.go keeps.
use term_bridge.Prelude.{
  ℕ, zero, suc, ◌+◌, not, String, Bool, false, List, [], ◌∷◌, length, take, drop, if◌then◌else◌,
  if_first, Result, ok, err,
}
use term_bridge.Terminal.Outbound.{Outbound, binary, text, outbound_size}
use term_bridge.Terminal.Client.{Client, Limits, enqueue, can_enqueue}
use term_bridge.Terminal.Replay.{
  HistoryFile, ReplayConfig, ReplayError, chunk_loop, enqueue_replay_chunks, finish_replay,
  enqueue_replay, read_replay_tail, started_message, replay_started_message, client_queue_full,
  flush_failed,
}

-- What every enqueue keeps, the replay keeps.
module _ (P : Client → Type 0) (limits : Limits)
    (keep : (c : Client) (o : Outbound) → P c → P (enqueue limits c o).0) where
  chunk_loop_keeps :
      (f chunk : ℕ) (reserved : Outbound) (c : Client) (bytes : List ℕ)
      → P c
      → P (chunk_loop limits f chunk reserved c bytes).0
  unfolding chunk_loop
  chunk_loop_keeps zero chunk reserved c bytes h = h
  chunk_loop_keeps (suc f) chunk reserved c [] h = h
  chunk_loop_keeps (suc f) chunk reserved c (b ∷ bytes) h =
      let piece = binary (take chunk (b ∷ bytes)) in
      let (c', sent) = enqueue limits c piece in
      let next = keep c piece h in
      let later =
        chunk_loop_keeps f chunk reserved (enqueue limits c piece).0 (drop chunk (b ∷ bytes))
          next in
      let rest = chunk_loop limits f chunk reserved c' (drop chunk (b ∷ bytes)) in
      let size = outbound_size reserved + length (take chunk (b ∷ bytes)) in
      if_first P (not (can_enqueue limits c size)) (c, false)
        (if not sent then (c', false) else rest) (λ _. h)
        (λ _. if_first P (not sent) (c', false) rest (λ _. next) (λ _. later))

  finish_replay_keeps :
      (config : ReplayConfig) (c : Client) (r : Result ReplayError (List ℕ × Bool))
      → P c
      → P (finish_replay limits config c r).0
  unfolding finish_replay enqueue_replay_chunks
  finish_replay_keeps config c (err e) h = h
  finish_replay_keeps config c (ok ([], cut)) h = keep c _ h
  finish_replay_keeps config c (ok (b ∷ bytes, cut)) h =
      keep _ _ (chunk_loop_keeps (length (b ∷ bytes)) _ _ c (b ∷ bytes) h)

  pub enqueue_replay_keeps :
      (config : ReplayConfig) (session workspace role : String) (flushed : Bool)
      (file : HistoryFile) (c : Client)
      → P c
      → P (enqueue_replay limits config session workspace role flushed file c).0
  unfolding enqueue_replay
  enqueue_replay_keeps config session workspace role flushed file c h =
      let start = text (started_message session workspace role) in
      let again = text replay_started_message in
      let (c1, sent1) = enqueue limits c start in
      let (c2, sent2) = enqueue limits c1 again in
      let first = keep c start h in
      let second = keep c1 again first in
      let end = finish_replay limits config c2 (read_replay_tail config file) in
      let full : Result ReplayError (Unit {0}) = err client_queue_full in
      let unflushed : Client × Result ReplayError (Unit {0}) = (c2, err flush_failed) in
      let last = if not flushed then unflushed else end in
      if_first P (not sent1) (c1, full) (if not sent2 then (c2, full) else last) (λ _. first)
        (λ _.
          if_first P (not sent2) (c2, full) last (λ _. second)
            (λ _.
              if_first P (not flushed) unflushed end (λ _. second)
                (λ _. finish_replay_keeps config c2 (read_replay_tail config file) second)))
