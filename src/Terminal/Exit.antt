-- ===== src/Terminal/Exit.antt =====
-- The end of a session: waitLoop in internal/agent/application/task/terminal/runtime.go, from the
-- classification of the exit to what is saved and told to the clients. The clock, the start of the
-- process as the PTY reports it, and the outcome of closing the history are arguments.
pub mod Final
mod Tests
use term_bridge.Prelude.{
  ℕ, ◌%◌, ◌^◌, ◌-◌, String, Bool, true, false, not, ◌&&◌, Option, none, some, if◌then◌else◌, ltb, ℤ,
  pos, negsuc, eq_int,
}
use term_bridge.Protocol.Terminal.{ServerControlMessage, empty_message, type_exited}
use term_bridge.Process.Exit.{StopMode, WaitError, ExitResult, interpret_exit}
use term_bridge.Session.State.{StateRecord, schema_version, state_stopped, state_failed}
use term_bridge.Session.Record.{Session, ExitRecord}

-- What the PTY's Wait returns. The text of its error is kept beside what the code asks of it.
pub record WaitResult : Type 0 where
  pub exit_code : ℤ
  pub wait_error : Option WaitError
  pub error_text : String

abbrev pub is_some {ℓ} : {A : Type ℓ} → Option A → Bool
is_some none = false
is_some (some a) = true

abbrev pub reason_exited : String
reason_exited = "user_process_exited"

unfoldable pub exit_of : WaitResult → StopMode → ExitResult
unfolding interpret_exit
exit_of w mode = interpret_exit w.wait_error w.exit_code mode

-- The test of waitLoop for the state "failed".
unfoldable pub is_failed : WaitResult → StopMode → Bool
unfolding exit_of
is_failed w mode =
    let exit = exit_of w mode in
    is_some w.wait_error && not exit.stopped && not exit.closed && eq_int exit.code (pos 0)

unfoldable pub final_state : WaitResult → StopMode → String
unfolding is_failed
final_state w mode = if is_failed w mode then state_failed else state_stopped

unfoldable pub exit_record : WaitResult → StopMode → ℕ → ℕ → ExitRecord
unfolding exit_of
exit_record w mode started_at ended_at =
    let exit = exit_of w mode in
    record {
      schema_version = 1;
      exit_code = exit.code;
      reason = reason_exited;
      forced = exit.forced;
      closed = exit.closed;
      started_at = started_at;
      ended_at = ended_at;
      wait_error = if is_some exit.wait_err then w.error_text else "";
    }

unfoldable pub state_record : WaitResult → StopMode → ℕ → StateRecord
unfolding final_state
state_record w mode ended_at = record {
  schema_version = schema_version;
  state = final_state w mode;
  reason = reason_exited;
  updated_at = ended_at;
}

-- The session is saved along with the exit when its history has been cut.
unfoldable pub session_update : Session → Bool → ℕ → Option Session
session_update s truncated ended_at =
    if truncated
    then some (record s { history = record s.history { truncated = true }; updated_at = ended_at })
    else none

-- int32(code): the low 32 bits, as a signed number.
abbrev pub signed_32 : ℕ → ℤ
signed_32 n = if ltb n (2 ^ 31) then pos n else negsuc (2 ^ 32 - 1 - n)

unfoldable pub to_int32 : ℤ → ℤ
to_int32 (pos n) = signed_32 (n % 2 ^ 32)
to_int32 (negsuc n) = signed_32 (2 ^ 32 - 1 - n % 2 ^ 32)

unfoldable pub exited_message : WaitResult → StopMode → ServerControlMessage
unfolding exit_of final_state to_int32
exited_message w mode = record empty_message {
  type = type_exited;
  exit_code = some (to_int32 (exit_of w mode).code);
  state = final_state w mode;
  lifecycle_state = final_state w mode;
  attachment_state = "detached";
}
