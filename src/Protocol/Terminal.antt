-- ===== src/Protocol/Terminal.antt =====
-- internal/shared/dto/protocol/terminal/protocol.go: the control messages of a terminal stream.
-- The JSON codec of internal/shared/common/utils/codec, which calls the protobuf library, is a
-- parameter.
pub mod Valid
mod Tests
use Prim.Native.String.{len}
use term_bridge.Prelude.{
  ℕ, ◌*◌, String, Bool, true, false, ◌&&◌, ◌||◌, Option, none, some, List, [], ◌∷◌, ◌==◌, ltb,
  if◌then◌else◌, length, Result, ok, err, ◌>>=◌, ◌>>◌, fail_if, ℤ, pos, lt_int,
}

abbrev pub type_hello : String
type_hello = "hello"

abbrev pub type_resize : String
type_resize = "resize"

abbrev pub type_detach : String
type_detach = "detach"

abbrev pub type_ping : String
type_ping = "ping"

abbrev pub type_take_control : String
type_take_control = "take_control"

abbrev pub type_started : String
type_started = "started"

abbrev pub type_replay_started : String
type_replay_started = "replay_started"

abbrev pub type_replay_finished : String
type_replay_finished = "replay_finished"

abbrev pub type_state : String
type_state = "state"

abbrev pub type_exited : String
type_exited = "exited"

abbrev pub type_error : String
type_error = "error"

abbrev pub type_pong : String
type_pong = "pong"

abbrev pub control_role_controller : String
control_role_controller = "controller"

abbrev pub control_role_observer : String
control_role_observer = "observer"

abbrev pub reason_control_granted : String
reason_control_granted = "control_granted"

abbrev pub reason_control_lost : String
reason_control_lost = "control_lost"

abbrev pub reason_control_auto_granted : String
reason_control_auto_granted = "control_auto_granted"

abbrev pub disconnect_reason_device_reconnected : String
disconnect_reason_device_reconnected = "device reconnected"

abbrev pub disconnect_reason_device_deleted : String
disconnect_reason_device_deleted = "device deleted"

abbrev pub error_code_device_disconnected : String
error_code_device_disconnected = "device_disconnected"

abbrev pub error_message_device_disconnected : String
error_message_device_disconnected = "Device disconnected."

abbrev pub error_message_device_reconnected : String
error_message_device_reconnected = "Device reconnected."

abbrev pub error_message_device_deleted : String
error_message_device_deleted = "Device was removed."

abbrev pub max_json_message_bytes : ℕ
max_json_message_bytes = 16 * 1024

abbrev pub max_binary_frame_bytes : ℕ
max_binary_frame_bytes = 1024 * 1024

abbrev pub max_ping_nonce_bytes : ℕ
max_ping_nonce_bytes = 256

abbrev pub min_cols : ℤ
min_cols = pos 1

abbrev pub max_cols : ℤ
max_cols = pos 1000

abbrev pub min_rows : ℤ
min_rows = pos 1

abbrev pub max_rows : ℤ
max_rows = pos 1000

pub record ClientControlMessage : Type 0 where
  pub type : String
  pub cols : ℤ
  pub rows : ℤ
  pub nonce : String

pub record ServerControlMessage : Type 0 where
  pub type : String
  pub session_id : String
  pub workspace_id : String
  pub state : String
  pub lifecycle_state : String
  pub attachment_state : String
  pub reason : String
  pub exit_code : Option ℤ
  pub code : String
  pub message : String
  pub error : String
  pub nonce : String
  pub truncated : Option Bool
  pub control_role : String

-- The zero value, on which the program sets fields.
abbrev pub empty_message : ServerControlMessage
empty_message = record {
  type = "";
  session_id = "";
  workspace_id = "";
  state = "";
  lifecycle_state = "";
  attachment_state = "";
  reason = "";
  exit_code = none;
  code = "";
  message = "";
  error = "";
  nonce = "";
  truncated = none;
  control_role = "";
}

-- The errors of the package, by their texts.
pub data Error : Type 0 where
  control_too_large : ℕ → Error
  decode_failed missing_control missing_server ping_nonce_too_large pong_nonce_too_large : Error
  cols_out_of_range rows_out_of_range : ℤ → Error
  unknown_control_type unknown_server_type : String → Error
  invalid_started invalid_state invalid_exited invalid_error marshal_failed : Error

abbrev pub out_of_range : ℤ → ℤ → ℤ → Bool
out_of_range lo hi n = lt_int n lo || lt_int hi n

unfoldable pub validate_size : ℤ → ℤ → Result Error (Unit {0})
validate_size cols rows = do
  fail_if (out_of_range min_cols max_cols cols) (cols_out_of_range cols)
  fail_if (out_of_range min_rows max_rows rows) (rows_out_of_range rows)

-- `nil` is `none`.
unfoldable pub validate_client : Option ClientControlMessage → Result Error (Unit {0})
unfolding validate_size
validate_client none = err missing_control
validate_client (some m) =
    if m.type == type_hello || m.type == type_detach || m.type == type_take_control
    then ok tt
    else if m.type == type_resize
    then validate_size m.cols m.rows
    else if m.type == type_ping
    then fail_if (ltb max_ping_nonce_bytes (len m.nonce)) ping_nonce_too_large
    else err (unknown_control_type m.type)

abbrev pub has_no_state : ServerControlMessage → Bool
has_no_state m = m.state == "" && m.lifecycle_state == ""

abbrev pub is_none {ℓ} : {A : Type ℓ} → Option A → Bool
is_none none = true
is_none (some a) = false

unfoldable pub validate_server : Option ServerControlMessage → Result Error (Unit {0})
validate_server none = err missing_server
validate_server (some m) =
    if m.type == type_started
    then fail_if (m.session_id == "" || m.workspace_id == "" || has_no_state m) invalid_started
    else if m.type == type_replay_started || m.type == type_replay_finished
    then ok tt
    else if m.type == type_state
    then fail_if (has_no_state m) invalid_state
    else if m.type == type_exited
    then fail_if (is_none m.exit_code || has_no_state m) invalid_exited
    else if m.type == type_error
    then fail_if (m.code == "" || m.message == "") invalid_error
    else if m.type == type_pong
    then fail_if (ltb max_ping_nonce_bytes (len m.nonce)) pong_nonce_too_large
    else err (unknown_server_type m.type)

abbrev or_decode_failed : Option ClientControlMessage → Result Error ClientControlMessage
or_decode_failed none = err decode_failed
or_decode_failed (some m) = ok m

abbrev or_marshal_failed : Option (List ℕ) → Result Error (List ℕ)
or_marshal_failed none = err marshal_failed
or_marshal_failed (some bytes) = ok bytes

-- UnmarshalProtoJSON fails or fills in a message; MarshalProtoJSON fails or gives bytes.
module _ (unmarshal : List ℕ → Option ClientControlMessage) where
  unfoldable pub decode_client : List ℕ → Result Error ClientControlMessage
  unfolding validate_client
  decode_client data' = do
    fail_if (ltb max_json_message_bytes (length data')) (control_too_large (length data'))
    message ← or_decode_failed (unmarshal data')
    validate_client (some message)
    ok message

module _ (marshal : ServerControlMessage → Option (List ℕ)) where
  unfoldable pub encode_server : Option ServerControlMessage → Result Error (List ℕ)
  unfolding validate_server
  encode_server none = validate_server none >> err missing_server
  encode_server (some m) = do validate_server (some m); or_marshal_failed (marshal m)

-- The pair of a code and a message.
unfoldable pub browser_disconnect_error : String → String × String
browser_disconnect_error reason =
    if reason == disconnect_reason_device_reconnected
    then (error_code_device_disconnected, error_message_device_reconnected)
    else if reason == disconnect_reason_device_deleted
    then (error_code_device_disconnected, error_message_device_deleted)
    else (error_code_device_disconnected, error_message_device_disconnected)
