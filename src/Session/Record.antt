-- ===== src/Session/Record.antt =====
-- internal/agent/model/task/session/session.go and internal/agent/model/task/process/record.go:
-- what is stored of a session. Times are numbers.
use term_bridge.Prelude.{ℕ, String, Bool, false, not, ◌&&◌, Option, ◌==◌, if◌then◌else◌, ℤ}
use term_bridge.Session.State.{StateRecord}

abbrev pub command_source_shortcut : String
command_source_shortcut = "shortcut"

abbrev pub command_source_command : String
command_source_command = "command"

pub record CommandRecord : Type 0 where
  pub command : String
  pub env_strategy : String
  pub env_count : ℤ
  pub source : String
  pub shortcut_id_snapshot : String
  pub shortcut_name_snapshot : String

unfoldable pub valid_source : CommandRecord → Bool
valid_source r =
    if r.source == ""
    then r.shortcut_id_snapshot == "" && r.shortcut_name_snapshot == ""
    else if r.source == command_source_command
    then r.shortcut_id_snapshot == "" && r.shortcut_name_snapshot == ""
    else if r.source == command_source_shortcut
    then not (r.shortcut_id_snapshot == "") && not (r.shortcut_name_snapshot == "")
    else false

pub record HistoryRecord : Type 0 where
  pub path : String
  pub max_lines : ℤ
  pub max_bytes : ℤ
  pub max_line_bytes : ℤ
  pub truncated : Bool

pub record Session : Type 0 where
  pub schema_version : ℕ
  pub id : String
  pub name : String
  pub workspace_id : String
  pub launch_cwd : String
  pub command : CommandRecord
  pub history : HistoryRecord
  pub created_at : ℕ
  pub updated_at : ℕ

pub record View : Type 0 where
  pub session : Session
  pub state : StateRecord
  pub exit_code : Option ℤ
  pub exit_reason : String
  pub command_text : String

-- process.Record
pub record ProcessRecord : Type 0 where
  pub schema_version : ℕ
  pub pid : ℤ
  pub owner_pid : ℤ
  pub executable : String
  pub command_line : String
  pub cwd : String
  pub started_at : ℕ

-- The text of the error of the wait, or the empty text.
pub record ExitRecord : Type 0 where
  pub schema_version : ℕ
  pub exit_code : ℤ
  pub reason : String
  pub forced : Bool
  pub closed : Bool
  pub started_at : ℕ
  pub ended_at : ℕ
  pub wait_error : String
