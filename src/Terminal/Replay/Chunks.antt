-- ===== src/Terminal/Replay/Chunks.antt =====
-- What the loop of enqueueReplayChunks of runtime.go adds to a queue.
use term_bridge.Prelude.{
  ℕ, zero, suc, ◌+◌, ◌≤◌, ◌<◌, ◌≡◌, refl, sym, ap, ◌∙◌, inl, inr, Bool, true, false, List, [], ◌∷◌,
  ◌++◌, append-nil, append_assoc, arith, length, length-drop, take, drop, take-append-drop,
  Bool-cases,
}
use term_bridge.Terminal.Outbound.{Outbound, binary, outbound_size}
use term_bridge.Terminal.Client.{Client, Limits, enqueue, can_enqueue}
use term_bridge.Terminal.Replay.{ReplayConfig, chunk_loop, enqueue_replay_chunks}

abbrev pub join : List (List ℕ) → List ℕ
join [] = []
join (p ∷ ps) = p ++ join ps

abbrev pub binaries : List (List ℕ) → List Outbound
binaries [] = []
binaries (p ∷ ps) = binary p ∷ binaries ps

module _ (limits : Limits) where
  pub enqueue_sent :
      (c : Client) (o : Outbound)
      → (enqueue limits c o).1 ≡ true
      → (enqueue limits c o).0.queue ≡ c.queue ++ o ∷ []
  unfolding enqueue
  enqueue_sent c o h = ground arith

  -- The loop appends chunks that are a prefix of the bytes, all of them if it returns true.
  pub record IsCut (c : Client) (bytes : List ℕ) (r : Client × Bool) : Type 0 where
    pub pieces : List (List ℕ)
    pub left : List ℕ
    pub queued : r.0.queue ≡ c.queue ++ binaries pieces
    pub prefix : join pieces ++ left ≡ bytes
    pub complete : r.1 ≡ true → left ≡ []

  enqueue_unsent :
      (c : Client) (o : Outbound)
      → (enqueue limits c o).1 ≡ false
      → (enqueue limits c o).0.queue ≡ c.queue
  unfolding enqueue
  enqueue_unsent c o h = ground arith

  stop : (c : Client) (bytes : List ℕ) → IsCut c bytes (c, false)
  stop c bytes = record {
    pieces = [];
    left = bytes;
    queued = sym (append-nil c.queue);
    prefix = refl;
    complete = λ e. cc;
  }

  done : (c : Client) (flag : Bool) → IsCut c [] (c, flag)
  done c flag = record {
    pieces = [];
    left = [];
    queued = sym (append-nil c.queue);
    prefix = refl;
    complete = λ e. refl;
  }

  stop_unsent : (c c' : Client) (bytes : List ℕ) → c'.queue ≡ c.queue → IsCut c bytes (c', false)
  stop_unsent c c' bytes same = record {
    pieces = [];
    left = bytes;
    queued = same ∙ sym (append-nil c.queue);
    prefix = refl;
    complete = λ e. cc;
  }

  push :
      (c c' : Client) (piece rest bytes : List ℕ) (r : Client × Bool)
      → c'.queue ≡ c.queue ++ binary piece ∷ []
      → piece ++ rest ≡ bytes
      → IsCut c' rest r
      → IsCut c bytes r
  push c c' piece rest bytes r sent whole cut = record {
    pieces = piece ∷ cut.pieces;
    left = cut.left;
    queued =
        cut.queued
        ∙ ap (λ q. q ++ binaries cut.pieces) sent
        ∙ append_assoc c.queue (binary piece ∷ []) (binaries cut.pieces);
    prefix = append_assoc piece (join cut.pieces) cut.left ∙ ap (◌++◌ piece) cut.prefix ∙ whole;
    complete = cut.complete;
  }

  chunk_loop-IsCut :
      (f chunk : ℕ) (reserved : Outbound) (c : Client) (bytes : List ℕ)
      → 0 < chunk
      → length bytes ≤ f
      → IsCut c bytes (chunk_loop limits f chunk reserved c bytes)
  unfolding chunk_loop
  chunk_loop-IsCut zero chunk reserved c [] pos h = done c true
  chunk_loop-IsCut zero chunk reserved c (b ∷ bytes) pos h = absurd (omega arith)
  chunk_loop-IsCut (suc f) chunk reserved c [] pos h = done c true
  chunk_loop-IsCut (suc f) chunk reserved c (b ∷ rest) pos h = elim (Bool-cases room) [
    | inr e ↦ rw (e, chunk_loop) (stop c bytes)
    | inl e ↦ elim (Bool-cases (enqueue limits c (binary piece)).1) [
      | inr e' ↦ rw (e, e', chunk_loop) (stop_unsent c _ bytes (enqueue_unsent c (binary piece) e'))
      | inl e' ↦
          rw (e, e', chunk_loop)
            (push c (enqueue limits c (binary piece)).0 piece (drop chunk bytes) bytes _
              (enqueue_sent c (binary piece) e') (take-append-drop chunk bytes)
              (chunk_loop-IsCut f chunk reserved (enqueue limits c (binary piece)).0
                (drop chunk bytes) pos (omega (arith, length-drop chunk bytes))))
    ]
  ]
    where
      bytes : List ℕ
      bytes = b ∷ rest

      piece : List ℕ
      piece = take chunk bytes

      room : Bool
      room = can_enqueue limits c (outbound_size reserved + length piece)

  pub enqueue_replay_chunks-IsCut :
      (config : ReplayConfig) (c : Client) (bytes : List ℕ) (reserved : Outbound)
      → IsCut c bytes (enqueue_replay_chunks limits config c bytes reserved)
  unfolding enqueue_replay_chunks
  enqueue_replay_chunks-IsCut config c bytes reserved =
      chunk_loop-IsCut (length bytes) _ reserved c bytes (ground arith) (omega arith)
