-- ===== src/Protocol/Tunnel/Frames.antt =====
-- What crosses the tunnel.
use term_bridge.Prelude.{
  Bool, true, false, ℕ, Option, none, some, List, eq_iff, ◌≡◌, refl, ap, ◌∙◌, if_both, ◌==◌, ◌↔◌,
  arith, ok, err, ℤ, pos, negsuc,
}
use term_bridge.Protocol.Tunnel.{
  hello, ping, pong, error, other, list_workspaces_resp, workspace_tree_resp,
  workspace_sessions_resp, create_session_resp, get_session_resp, rerun_session_resp,
  update_session_resp, close_session_resp, delete_session_resp, read_history_resp,
  update_workspace_order_resp, update_session_order_resp, delete_workspace_resp,
  list_shortcuts_resp, create_shortcut_resp, update_shortcut_resp, delete_shortcut_resp,
  update_shortcut_order_resp, fs_stat_resp, fs_read_directory_resp, fs_read_file_resp,
  fs_write_file_resp, fs_create_directory_resp, fs_delete_resp, fs_rename_resp, scm_status_resp,
  scm_original_content_resp, scm_execute_resp, scm_repository_resp, Payload, TunnelFrame, ErrorResp,
  missing_stream_id, remote, validate_frame, check_payload, marshal_frame, unmarshal_frame,
  response_json, remote_error_from_frame, response_or_remote, response_bytes, response_of,
  or_marshal_failed, get_hello, protocol_version, check_version,
}

-- What ValidateFrame asks of a frame.
pub record IsFrame {M : Type 0} (f : TunnelFrame M) : Type 0 where
  pub has_stream : ¬ (f.stream_id ≡ "")
  pub carried : Payload M
  pub has_payload : f.payload ≡ some carried
  pub version : (v : ℤ) → get_hello carried ≡ some v → v ≡ protocol_version

version_ok : (h : Option ℤ) → check_version h ≡ ok tt → (v : ℤ) → h ≡ some v → v ≡ protocol_version
version_ok none e v q = ground (arith, q)
version_ok (some (pos w)) e v q = ground (arith, q, e)
version_ok (some (negsuc w)) e v q = ground (arith, e)

payload_ok :
    {M : Type 0} (p : Option (Payload M))
    → check_payload p ≡ ok tt
    → (c : Payload M) × (p ≡ some c) × (check_version (get_hello c) ≡ ok tt)
unfolding check_payload
payload_ok none h = ground (arith, h)
payload_ok (some c) h = (c, refl, h)

hello_ok : (h : Option ℤ) → ((v : ℤ) → h ≡ some v → v ≡ protocol_version) → check_version h ≡ ok tt
hello_ok none f = refl
hello_ok (some v) f = ap (λ x. check_version (some x)) (f v refl)

IsFrame-ok : {M : Type 0} (f : TunnelFrame M) → validate_frame (some f) ≡ ok tt → IsFrame f
unfolding validate_frame
IsFrame-ok f h =
    let (c, e, v) = payload_ok f.payload (ground arith) in
    record {
      has_stream = λ s. ground (arith, eq_iff f.stream_id "", s, h);
      carried = c;
      has_payload = e;
      version = version_ok (get_hello c) v;
    }

ok-IsFrame : {M : Type 0} (f : TunnelFrame M) → IsFrame f → validate_frame (some f) ≡ ok tt
unfolding validate_frame check_payload
ok-IsFrame f h =
    let checked : check_payload f.payload ≡ ok tt =
      ap check_payload h.has_payload ∙ hello_ok (get_hello h.carried) h.version in
    if_both (λ x. x ≡ ok tt) (f.stream_id == "") (err missing_stream_id) (check_payload f.payload)
      (λ y. absurd (h.has_stream (ground (arith, eq_iff f.stream_id "", y)))) (λ _. checked)

module _ {M : Type 0} (unmarshal : List ℕ → Option (TunnelFrame M)) where
  -- A frame that UnmarshalFrame returns is the codec's reading of the bytes, has a stream id and a
  -- payload, and is not a hello of another version of the protocol.
  pub unmarshal_frame_sound :
      (bytes : List ℕ) (f : TunnelFrame M)
      → unmarshal_frame unmarshal bytes ≡ ok f
      → (unmarshal bytes ≡ some f) × IsFrame f
  unfolding unmarshal_frame
  unmarshal_frame_sound bytes f h = (ground arith, IsFrame-ok f (ground arith))

abbrev pub is_there : {A : Type 0} → Option A → Bool
is_there none = false
is_there (some a) = true

-- The message of a payload is no nil pointer, which the codec writes as an empty message.
abbrev pub is_set : {M : Type 0} → Payload M → Bool
is_set (hello m) = is_there m
is_set (ping m) = is_there m
is_set (pong m) = is_there m
is_set (list_workspaces_resp m) = is_there m
is_set (workspace_tree_resp m) = is_there m
is_set (workspace_sessions_resp m) = is_there m
is_set (create_session_resp m) = is_there m
is_set (get_session_resp m) = is_there m
is_set (rerun_session_resp m) = is_there m
is_set (update_session_resp m) = is_there m
is_set (close_session_resp m) = is_there m
is_set (delete_session_resp m) = is_there m
is_set (read_history_resp m) = is_there m
is_set (update_workspace_order_resp m) = is_there m
is_set (update_session_order_resp m) = is_there m
is_set (delete_workspace_resp m) = is_there m
is_set (list_shortcuts_resp m) = is_there m
is_set (create_shortcut_resp m) = is_there m
is_set (update_shortcut_resp m) = is_there m
is_set (delete_shortcut_resp m) = is_there m
is_set (update_shortcut_order_resp m) = is_there m
is_set (fs_stat_resp m) = is_there m
is_set (fs_read_directory_resp m) = is_there m
is_set (fs_read_file_resp m) = is_there m
is_set (fs_write_file_resp m) = is_there m
is_set (fs_create_directory_resp m) = is_there m
is_set (fs_delete_resp m) = is_there m
is_set (fs_rename_resp m) = is_there m
is_set (scm_status_resp m) = is_there m
is_set (scm_original_content_resp m) = is_there m
is_set (scm_execute_resp m) = is_there m
is_set (scm_repository_resp m) = is_there m
is_set (error m) = is_there m
is_set (other n) = true

abbrev pub has_no_nil : {M : Type 0} → TunnelFrame M → Bool
has_no_nil f = elim f.payload [ none ↦ true | some p ↦ is_set p ]

module _ {M : Type 0} (marshal : TunnelFrame M → Option (List ℕ)) where
  marshalled :
      (f : TunnelFrame M) (bytes : List ℕ)
      → validate_frame (some f) ≡ ok tt
      → marshal f ≡ some bytes
      → marshal_frame marshal (some f) ≡ ok bytes
  unfolding marshal_frame
  marshalled f bytes v e = rw (v, e)

  -- MarshalFrame gives exactly what the codec writes of a valid frame.
  marshal_frame_iff :
      (f : TunnelFrame M) (bytes : List ℕ)
      → (marshal_frame marshal (some f) ≡ ok bytes) ↔ ((marshal f ≡ some bytes) × IsFrame f)
  unfolding marshal_frame
  marshal_frame_iff f bytes = (
    λ h. (ground (arith, h), IsFrame-ok f (ground (arith, h))),
    λ (e, v). marshalled f bytes (ok-IsFrame f v) e,
  )

module _ {M : Type 0} (marshal : TunnelFrame M → Option (List ℕ))
    (unmarshal : List ℕ → Option (TunnelFrame M))
    (round : (f : TunnelFrame M) (bytes : List ℕ)
      → has_no_nil f ≡ true
      → marshal f ≡ some bytes
      → unmarshal bytes ≡ some f) where
  read_back :
      (f : TunnelFrame M) (bytes : List ℕ)
      → unmarshal bytes ≡ some f
      → validate_frame (some f) ≡ ok tt
      → unmarshal_frame unmarshal bytes ≡ ok f
  unfolding unmarshal_frame
  read_back f bytes e v = rw (e, v)

  -- Over a codec that reads back the frames it has written whose message is not nil: MarshalFrame gives bytes exactly for what the codec writes of a frame that has a stream id and a payload and is no hello of another version; and what the codec has written of a frame whose message is not nil, UnmarshalFrame gives back exactly if the frame is of that form. So the two ends refuse the same frames, and what one accepts the other gives back.
  pub marshal_round_trip :
      (f : TunnelFrame M) (bytes : List ℕ)
      → has_no_nil f ≡ true
      → ((marshal_frame marshal (some f) ≡ ok bytes) ↔ ((marshal f ≡ some bytes) × IsFrame f))
        × (marshal f ≡ some bytes → (unmarshal_frame unmarshal bytes ≡ ok f) ↔ IsFrame f)
  marshal_round_trip f bytes n = (
    marshal_frame_iff marshal f bytes,
    λ e. (
      λ h. (unmarshal_frame_sound unmarshal bytes f h).1,
      λ v. read_back f bytes (round f bytes n e) (ok-IsFrame f v),
    ),
  )

written : (o : Option (List ℕ)) (e : ErrorResp) → or_marshal_failed o ≡ err (remote e) → ⊥
written none e h = ground (arith, h)
written (some b) e h = ground (arith, h)

module _ {M : Type 0} (get_session get_shortcut : Option M → Option M)
    (marshal : Option M → Option (List ℕ)) where
  is_remote :
      (f : TunnelFrame M) (o : Option ErrorResp) (e : ErrorResp)
      → o ≡ some e
      → response_or_remote get_session get_shortcut marshal f o ≡ err (remote e)
  unfolding response_or_remote
  is_remote f o e h = rw h

  local_error :
      (m : Option (Option M)) (e : ErrorResp)
      → response_bytes get_session get_shortcut marshal m ≡ err (remote e)
      → ⊥
  unfolding response_bytes
  local_error none e h = ground (arith, h)
  local_error (some m) e h = written (marshal m) e h

  remote_of :
      (f : TunnelFrame M) (o : Option ErrorResp) (e : ErrorResp)
      → response_or_remote get_session get_shortcut marshal f o ≡ err (remote e)
      → o ≡ some e
  unfolding response_or_remote
  remote_of f none e h = absurd (local_error (response_of get_session get_shortcut f.payload) e h)
  remote_of f (some d) e h = ground (arith, h)

  -- ResponseJSON of a frame gives a remote error exactly when the frame holds an error, and gives
  -- that error.
  pub response_json_remote_iff :
      (f : TunnelFrame M) (e : ErrorResp)
      → (response_json get_session get_shortcut marshal (some f) ≡ err (remote e))
        ↔ (remote_error_from_frame (some f) ≡ some e)
  unfolding response_json
  response_json_remote_iff f e = (
    remote_of f (remote_error_from_frame (some f)) e,
    λ h. is_remote f (remote_error_from_frame (some f)) e h,
  )
