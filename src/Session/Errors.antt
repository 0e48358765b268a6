-- ===== src/Session/Errors.antt =====
-- internal/agent/model/task/session/errors.go: the errors of sessions, each with a stable code and a
-- message for the client. The constructors are named for the functions that make the errors.
pub mod Codes
use term_bridge.Prelude.{String, Option, none, some, ◌==◌, if◌then◌else◌}

pub data SessionError : Type 0 where
  not_attachable closed not_found workspace_not_found missing_name missing_command : SessionError
  not_editable already_running cannot_rerun_running cannot_delete_running : SessionError
  invalid_command_shape invalid_command_source command_source_requires_command : SessionError
  update_requires_fields invalid_size invalid_cwd session_ids_required : SessionError
  duplicate_session_id : SessionError

unfoldable pub code : SessionError → String
code not_attachable = "session_not_attachable"
code closed = "session_closed"
code not_found = "session_not_found"
code workspace_not_found = "workspace_not_found"
code missing_name = "missing_session_name"
code missing_command = "missing_session_command"
code not_editable = "session_not_editable"
code already_running = "session_already_running"
code cannot_rerun_running = "cannot_rerun_running_session"
code cannot_delete_running = "cannot_delete_running_session"
code invalid_command_shape = "invalid_session_command_shape"
code invalid_command_source = "invalid_session_command_source"
code command_source_requires_command = "session_command_source_requires_command"
code update_requires_fields = "session_update_requires_fields"
code invalid_size = "invalid_terminal_size"
code invalid_cwd = "invalid_session_cwd"
code session_ids_required = "session_ids_required"
code duplicate_session_id = "duplicate_session_id"

unfoldable pub message : SessionError → String
message not_attachable = "Session is not attachable."
message closed = "Session is closed."
message not_found = "Session was not found."
message workspace_not_found = "Workspace was not found."
message missing_name = "Session name is required."
message missing_command = "Session command is required."
message not_editable = "Only stopped or failed sessions can change the launch command."
message already_running = "Session is already running."
message cannot_rerun_running = "A running session cannot be rerun."
message cannot_delete_running = "A running session cannot be deleted."
message invalid_command_shape = "Session command must contain one raw command text."
message invalid_command_source = "Session command source is invalid."
message command_source_requires_command = "Session command source requires a command."
message update_requires_fields = "Session update requires a name or command."
message invalid_size = "Terminal size is invalid."
message invalid_cwd = "Session working directory is invalid."
message session_ids_required = "Session ids are required."
message duplicate_session_id = "Session ids contain duplicates."

-- The methods of *Error on a pointer that may be nil, which is `none`.
unfoldable pub error_text : Option SessionError → String
unfolding message code
error_text none = ""
error_text (some e) = if message e == "" then code e else message e

unfoldable pub runtime_error_code : Option SessionError → String
unfolding code
runtime_error_code none = "internal_error"
runtime_error_code (some e) = code e

unfoldable pub runtime_error_message : Option SessionError → String
unfolding message
runtime_error_message none = ""
runtime_error_message (some e) = message e

-- CodeOf, where `none` is an error that is not a *Error.
unfoldable pub code_of : Option SessionError → String
unfolding code
code_of none = ""
code_of (some e) = code e
