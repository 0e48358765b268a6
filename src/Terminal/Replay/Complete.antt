-- ===== src/Terminal/Replay/Complete.antt =====
-- What a new client's queue holds after a successful enqueueReplay of runtime.go.
use term_bridge.Prelude.{
  ℕ, ◌-◌, ◌<◌, ◌≡◌, refl, sym, ap, ◌∙◌, inl, inr, String, Bool, true, false, List, [], ◌∷◌, ◌++◌,
  append-nil, append_assoc, arith, length, take, take-append-drop, ltb, eqb, if◌then◌else◌,
  Bool-cases, Result, ok, err,
}
use term_bridge.Terminal.Outbound.{Outbound, text}
use term_bridge.Terminal.Client.{Client, Limits, enqueue}
use term_bridge.Terminal.Replay.{
  ReplayConfig, HistoryFile, missing, unreadable, content, ReplayError, read_replay_tail,
  started_message, replay_started_message, replay_finished_message, enqueue_replay_chunks,
  finish_replay, enqueue_replay,
}
use term_bridge.Terminal.Replay.Chunks.{join, binaries, enqueue_sent, enqueue_replay_chunks-IsCut}

-- The content of the history file.
abbrev pub file_bytes : HistoryFile → List ℕ
file_bytes missing = []
file_bytes unreadable = []
file_bytes (content bytes) = bytes

-- The bytes that are read are the end of the file, all of it unless they are marked as truncated.
record IsTail (config : ReplayConfig) (file : HistoryFile) (bytes : List ℕ) (cut : Bool)
    : Type 0 where
  skipped : List ℕ
  rest : skipped ++ bytes ≡ file_bytes file
  whole : 0 < config.replay_max_bytes → cut ≡ false → skipped ≡ []

read_replay_tail-IsTail :
    (config : ReplayConfig) (file : HistoryFile) (bytes : List ℕ) (cut : Bool)
    → read_replay_tail config file ≡ ok (bytes, cut)
    → IsTail config file bytes cut
unfolding read_replay_tail
read_replay_tail-IsTail config missing bytes cut h = record {
  skipped = [];
  rest = ground arith;
  whole = λ pos e. refl;
}
read_replay_tail-IsTail config unreadable bytes cut h = absurd (ground arith)
read_replay_tail-IsTail config (content all) bytes cut h =
    elim (Bool-cases (eqb config.replay_max_bytes 0)) [
      | inl e ↦ record {
        skipped = all;
        rest = ground (arith, append-nil all);
        whole = λ pos _. absurd (ground arith);
      }
      | inr e ↦ elim (Bool-cases (ltb config.replay_max_bytes (length all))) [
        | inl e' ↦ record {
          skipped = take (length all - config.replay_max_bytes) all;
          rest = ground (arith, take-append-drop (length all - config.replay_max_bytes) all);
          whole = λ pos clean. absurd (ground arith);
        }
        | inr e' ↦ record { skipped = []; rest = ground arith; whole = λ pos clean. refl }
      ]
    ]

module _ (limits : Limits) where
  abbrev finished : Bool → Outbound
  finished flag = text (replay_finished_message flag)

  record IsFinished (c c' : Client) (bytes : List ℕ) (cut : Bool) : Type 0 where
    pieces : List (List ℕ)
    left : List ℕ
    flag : Bool
    queued : c'.queue ≡ c.queue ++ (binaries pieces ++ finished flag ∷ [])
    prefix : join pieces ++ left ≡ bytes
    clean : flag ≡ false → (left ≡ []) × (cut ≡ false)

  finish_replay-IsFinished :
      (config : ReplayConfig) (c : Client) (bytes : List ℕ) (cut : Bool)
      → (finish_replay limits config c (ok (bytes, cut))).1 ≡ ok tt
      → IsFinished c (finish_replay limits config c (ok (bytes, cut))).0 bytes cut
  unfolding finish_replay
  finish_replay-IsFinished config c [] cut h = record {
    pieces = [];
    left = [];
    flag = cut;
    queued = enqueue_sent limits c (finished cut) (ground arith);
    prefix = refl;
    clean = λ e. (refl, e);
  }
  finish_replay-IsFinished config c (b ∷ bytes) cut h =
      let run = enqueue_replay_chunks limits config c (b ∷ bytes) (finished cut) in
      let part = enqueue_replay_chunks-IsCut limits config c (b ∷ bytes) (finished cut) in
      let flag : Bool = if run.1 then cut else true in
      record {
        pieces = part.pieces;
        left = part.left;
        flag = flag;
        queued =
            enqueue_sent limits run.0 (finished flag) (ground arith)
            ∙ ap (λ q. q ++ finished flag ∷ []) part.queued
            ∙ append_assoc c.queue (binaries part.pieces) (finished flag ∷ []);
        prefix = part.prefix;
        clean = λ e. (part.complete (ground arith), ground arith);
      }

-- A queue that holds a whole replay of the history file.
pub record IsReplay (session workspace role : String) (config : ReplayConfig) (file : HistoryFile)
    (queue : List Outbound) : Type 0 where
  pub pieces : List (List ℕ)
  pub truncated : Bool
  pub skipped : List ℕ
  pub left : List ℕ
  pub frames :
      queue
      ≡ text (started_message session workspace role)
        ∷ text replay_started_message
        ∷ (binaries pieces ++ text (replay_finished_message truncated) ∷ [])
  pub contiguous : skipped ++ (join pieces ++ left) ≡ file_bytes file
  pub whole : 0 < config.replay_max_bytes → truncated ≡ false → join pieces ≡ file_bytes file

module _ (limits : Limits) (session workspace role : String) (config : ReplayConfig)
    (file : HistoryFile) where
  abbrev c1 : Client → Client
  c1 c = (enqueue limits c (text (started_message session workspace role))).0

  abbrev c2 : Client → Client
  c2 c = (enqueue limits (c1 c) (text replay_started_message)).0

  assemble :
      (c c3 : Client) (bytes : List ℕ) (cut : Bool)
      → c.queue ≡ []
      → (c2 c).queue ≡ (c1 c).queue ++ text replay_started_message ∷ []
      → (c1 c).queue ≡ c.queue ++ text (started_message session workspace role) ∷ []
      → IsTail config file bytes cut
      → IsFinished limits (c2 c) c3 bytes cut
      → IsReplay session workspace role config file c3.queue
  assemble c c3 bytes cut fresh second first tail end = record {
    pieces = end.pieces;
    truncated = end.flag;
    skipped = tail.skipped;
    left = end.left;
    frames = rw (end.queued, second, first, fresh) refl;
    contiguous = rw end.prefix tail.rest;
    whole = λ pos e.
        let clean = end.clean e in
        sym (append-nil (join end.pieces))
        ∙ ap (◌++◌ (join end.pieces)) (sym clean.0)
        ∙ end.prefix
        ∙ ap (λ s. s ++ bytes) (sym (tail.whole pos clean.1))
        ∙ tail.rest;
  }

  finish :
      (c : Client) (r : Result ReplayError (List ℕ × Bool))
      → read_replay_tail config file ≡ r
      → c.queue ≡ []
      → (c2 c).queue ≡ (c1 c).queue ++ text replay_started_message ∷ []
      → (c1 c).queue ≡ c.queue ++ text (started_message session workspace role) ∷ []
      → (finish_replay limits config (c2 c) r).1 ≡ ok tt
      → IsReplay session workspace role config file (finish_replay limits config (c2 c) r).0.queue
  unfolding finish_replay
  finish c (err x) e fresh second first h = absurd (ground arith)
  finish c (ok (bytes, cut)) e fresh second first h =
      assemble c _ bytes cut fresh second first (read_replay_tail-IsTail config file bytes cut e)
        (finish_replay-IsFinished limits config (c2 c) bytes cut h)

  -- If enqueueReplay succeeds on an empty queue, the queue holds the started frame, the
  -- replay_started frame, binary frames and the replay_finished frame, in this order; the binary
  -- frames are contiguous bytes of the history file; and they are the whole file where
  -- replay_finished does not say that it is truncated (for a positive replayMaxBytes).
  pub enqueue_replay_complete :
      (flushed : Bool) (c : Client)
      → c.queue ≡ []
      → (enqueue_replay limits config session workspace role flushed file c).1 ≡ ok tt
      → IsReplay session workspace role config file
          (enqueue_replay limits config session workspace role flushed file c).0.queue
  unfolding enqueue_replay
  enqueue_replay_complete flushed c fresh h =
      let start = text (started_message session workspace role) in
      let again = text replay_started_message in
      let sent1 : (enqueue limits c start).1 ≡ true = ground arith in
      let sent2 : (enqueue limits (c1 c) again).1 ≡ true = ground arith in
      let flush : flushed ≡ true = ground arith in
      rw (sent1, sent2, flush)
        (finish c (read_replay_tail config file) refl fresh (enqueue_sent limits (c1 c) again sent2)
          (enqueue_sent limits c start sent1) (ground arith))
