-- ===== src/Session/State.antt =====
-- internal/agent/model/task/session/state.go. A state is a text, as in Go, so that it can be
-- invalid. Times are numbers.
pub mod Transitions
use term_bridge.Prelude.{
  ℕ, String, Bool, true, false, not, ◌&&◌, ◌||◌, ◌==◌, if◌then◌else◌, Result, ok, err,
}

abbrev pub schema_version : ℕ
schema_version = 1

abbrev pub state_running : String
state_running = "running"

abbrev pub state_stopped : String
state_stopped = "stopped"

abbrev pub state_failed : String
state_failed = "failed"

pub record StateRecord : Type 0 where
  pub schema_version : ℕ
  pub state : String
  pub reason : String
  pub updated_at : ℕ

unfoldable pub valid_state : String → Bool
valid_state s = s == state_running || s == state_stopped || s == state_failed

unfoldable pub can_transition : String → String → Bool
unfolding valid_state
can_transition from to =
    if not (valid_state from) || not (valid_state to)
    then false
    else if from == state_running
    then to == state_stopped || to == state_failed
    else if from == state_stopped
    then to == state_running || to == state_failed
    else if from == state_failed
    then to == state_running || to == state_stopped
    else false

pub data TransitionError : Type 0 where
  invalid_transition : String → String → TransitionError

unfoldable pub validate_transition : String → String → Result TransitionError (Unit {0})
unfolding can_transition
validate_transition from to =
    if can_transition from to then ok tt else err (invalid_transition from to)

unfoldable pub terminal : String → Bool
terminal s = s == state_stopped || s == state_failed
