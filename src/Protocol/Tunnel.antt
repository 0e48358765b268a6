-- ===== src/Protocol/Tunnel.antt =====
-- internal/shared/dto/protocol/tunnel/frame.go: the frames between the agent and the cloud.
-- The messages that a frame carries are generated code and so a type parameter, with the getters
-- and the JSON codec. A message may be a nil pointer, which is `none`. The fields of a frame that
-- this file does not tell apart are `other`, by their numbers.
pub mod Frames
mod Tests
use term_bridge.Prelude.{
  ℕ, ◌*◌, String, Bool, true, false, not, Option, none, some, List, ◌==◌, if◌then◌else◌, Result, ok,
  err, ◌>>=◌, ◌>>◌, fail_if, ℤ, pos, eq_int,
}

abbrev pub protocol_version : ℤ
protocol_version = pos 5

abbrev pub control_stream_id : String
control_stream_id = "control"

-- Its field `details` is neither set nor read here.
pub record ErrorResp : Type 0 where
  pub code : String
  pub error : String
  pub request_id : String

pub data Payload (M : Type 0) : Type 0 where
  hello : Option ℤ → Payload M
  ping pong : Option String → Payload M
  list_workspaces_resp workspace_tree_resp : Option M → Payload M
  workspace_sessions_resp create_session_resp get_session_resp : Option M → Payload M
  rerun_session_resp update_session_resp close_session_resp : Option M → Payload M
  delete_session_resp read_history_resp : Option M → Payload M
  update_workspace_order_resp update_session_order_resp : Option M → Payload M
  delete_workspace_resp list_shortcuts_resp create_shortcut_resp : Option M → Payload M
  update_shortcut_resp delete_shortcut_resp : Option M → Payload M
  update_shortcut_order_resp fs_stat_resp fs_read_directory_resp : Option M → Payload M
  fs_read_file_resp fs_write_file_resp fs_create_directory_resp : Option M → Payload M
  fs_delete_resp fs_rename_resp scm_status_resp : Option M → Payload M
  scm_original_content_resp scm_execute_resp scm_repository_resp : Option M → Payload M
  error : Option ErrorResp → Payload M
  other : ℕ → Payload M

pub record TunnelFrame (M : Type 0) : Type 0 where
  pub stream_id : String
  pub request_id : String
  pub payload : Option (Payload M)

pub data FrameError : Type 0 where
  frame_is_nil missing_stream_id missing_payload : FrameError
  unsupported_version : ℤ → FrameError
  codec_failed : FrameError

abbrev pub tunnel_frame_error : String
tunnel_frame_error = "tunnel frame error"

-- The getters of the generated code give nil for a payload of another kind.
abbrev pub get_hello : {M : Type 0} → Payload M → Option ℤ
get_hello (hello h) = h
get_hello _ = none

abbrev pub get_error : {M : Type 0} → Payload M → Option ErrorResp
get_error (error e) = e
get_error _ = none

abbrev pub get_frame_error : {M : Type 0} → Option (Payload M) → Option ErrorResp
get_frame_error none = none
get_frame_error (some p) = get_error p

unfoldable pub ping_frame : {M : Type 0} → String → TunnelFrame M
ping_frame nonce = record {
  stream_id = control_stream_id;
  request_id = "";
  payload = some (ping (some nonce));
}

unfoldable pub pong_frame : {M : Type 0} → String → TunnelFrame M
pong_frame nonce = record {
  stream_id = control_stream_id;
  request_id = "";
  payload = some (pong (some nonce));
}

unfoldable pub error_frame : {M : Type 0} → String → String → String → String → TunnelFrame M
error_frame stream_id request_id code message = record {
  stream_id = stream_id;
  request_id = request_id;
  payload = some (error (some (record { code = code; error = message; request_id = request_id })));
}

abbrev pub check_version : Option ℤ → Result FrameError (Unit {0})
check_version none = ok tt
check_version (some v) = if eq_int v protocol_version then ok tt else err (unsupported_version v)

unfoldable pub check_payload : {M : Type 0} → Option (Payload M) → Result FrameError (Unit {0})
check_payload none = err missing_payload
check_payload (some p) = check_version (get_hello p)

unfoldable pub validate_frame : {M : Type 0} → Option (TunnelFrame M) → Result FrameError (Unit {0})
unfolding check_payload
validate_frame none = err frame_is_nil
validate_frame (some f) =
    if f.stream_id == "" then err missing_stream_id else check_payload f.payload

abbrev pub or_codec_failed : {A : Type 0} → Option A → Result FrameError A
or_codec_failed none = err codec_failed
or_codec_failed (some a) = ok a

module _ {M : Type 0} (marshal : TunnelFrame M → Option (List ℕ)) where
  unfoldable pub marshal_frame : Option (TunnelFrame M) → Result FrameError (List ℕ)
  unfolding validate_frame
  marshal_frame none = err frame_is_nil
  marshal_frame (some f) = do validate_frame (some f); or_codec_failed (marshal f)

module _ {M : Type 0} (unmarshal : List ℕ → Option (TunnelFrame M)) where
  unfoldable pub unmarshal_frame : List ℕ → Result FrameError (TunnelFrame M)
  unfolding validate_frame
  unmarshal_frame bytes = do f ← or_codec_failed (unmarshal bytes); validate_frame (some f); ok f

abbrev pub error_or_default : Option ErrorResp → String
error_or_default none = tunnel_frame_error
error_or_default (some e) = if e.error == "" then tunnel_frame_error else e.error

unfoldable pub error_message : {M : Type 0} → Option (TunnelFrame M) → String
error_message none = tunnel_frame_error
error_message (some f) = error_or_default (get_frame_error f.payload)

-- The text of a RemoteError, which holds the response of the frame.
unfoldable pub remote_error_text : Option ErrorResp → String
remote_error_text response = error_or_default response

unfoldable pub remote_error_from_frame : {M : Type 0} → Option (TunnelFrame M) → Option ErrorResp
remote_error_from_frame none = none
remote_error_from_frame (some f) = get_frame_error f.payload

module _ {M : Type 0} (get_session get_shortcut : Option M → Option M) where
  -- `none` is the nil interface of the default case; `some none` holds a nil pointer and is not nil.
  unfoldable pub response_message : Payload M → Option (Option M)
  response_message (list_workspaces_resp m) = some m
  response_message (workspace_tree_resp m) = some m
  response_message (workspace_sessions_resp m) = some m
  response_message (create_session_resp m) = some m
  response_message (get_session_resp m) = some (get_session m)
  response_message (rerun_session_resp m) = some m
  response_message (update_session_resp m) = some (get_session m)
  response_message (close_session_resp m) = some (get_session m)
  response_message (delete_session_resp m) = some m
  response_message (read_history_resp m) = some m
  response_message (update_workspace_order_resp m) = some m
  response_message (update_session_order_resp m) = some m
  response_message (delete_workspace_resp m) = some m
  response_message (list_shortcuts_resp m) = some m
  response_message (create_shortcut_resp m) = some (get_shortcut m)
  response_message (update_shortcut_resp m) = some (get_shortcut m)
  response_message (delete_shortcut_resp m) = some m
  response_message (update_shortcut_order_resp m) = some m
  response_message (fs_stat_resp m) = some m
  response_message (fs_read_directory_resp m) = some m
  response_message (fs_read_file_resp m) = some m
  response_message (fs_write_file_resp m) = some m
  response_message (fs_create_directory_resp m) = some m
  response_message (fs_delete_resp m) = some m
  response_message (fs_rename_resp m) = some m
  response_message (scm_status_resp m) = some m
  response_message (scm_original_content_resp m) = some m
  response_message (scm_execute_resp m) = some m
  response_message (scm_repository_resp m) = some m
  response_message _ = none

  unfoldable pub response_of : Option (Payload M) → Option (Option M)
  unfolding response_message
  response_of none = none
  response_of (some p) = response_message p

pub data ResponseError : Type 0 where
  response_is_nil unsupported_payload marshal_failed : ResponseError
  remote : ErrorResp → ResponseError

abbrev pub or_marshal_failed : Option (List ℕ) → Result ResponseError (List ℕ)
or_marshal_failed none = err marshal_failed
or_marshal_failed (some bytes) = ok bytes

module _ {M : Type 0} (get_session get_shortcut : Option M → Option M)
    (marshal : Option M → Option (List ℕ)) where
  unfoldable pub response_bytes : Option (Option M) → Result ResponseError (List ℕ)
  response_bytes none = err unsupported_payload
  response_bytes (some m) = or_marshal_failed (marshal m)

  unfoldable pub response_or_remote :
      TunnelFrame M → Option ErrorResp → Result ResponseError (List ℕ)
  unfolding response_bytes response_of
  response_or_remote f (some e) = err (remote e)
  response_or_remote f none = response_bytes (response_of get_session get_shortcut f.payload)

  unfoldable pub response_json : Option (TunnelFrame M) → Result ResponseError (List ℕ)
  unfolding response_or_remote
  response_json none = err response_is_nil
  response_json (some f) = response_or_remote f (remote_error_from_frame (some f))
