-- ===== src/Process/Exit.antt =====
-- internal/agent/model/task/process/exit.go. An error of the wait is known by what the code asks of
-- it: whether its text names the Windows status 0xc000013a, and whether it is an exec.ExitError.
use term_bridge.Prelude.{Bool, true, false, Option, none, some, if◌then◌else◌, ℤ, pos, eq_int}

abbrev pub default_exit_code : ℤ
default_exit_code = pos 1

abbrev pub forced_exit_code : ℤ
forced_exit_code = pos 130

pub data StopMode : Type 0 where
  stop_none stop_interrupt stop_close stop_kill : StopMode

pub record WaitError : Type 0 where
  pub is_windows_closed : Bool
  pub is_exit_error : Bool

pub record ExitResult : Type 0 where
  pub code : ℤ
  pub stopped : Bool
  pub forced : Bool
  pub closed : Bool
  pub wait_err : Option WaitError

abbrev is_closing : StopMode → Bool
is_closing stop_close = true
is_closing stop_kill = true
is_closing _ = false

abbrev is_interrupt : StopMode → Bool
is_interrupt stop_interrupt = true
is_interrupt _ = false

-- The tests on the error of a result that has code 0.
unfoldable pub interpret_wait_error : WaitError → ExitResult → ExitResult
interpret_wait_error e r =
    if eq_int r.code (pos 0)
    then (if e.is_windows_closed
        then record r { closed = true; code = forced_exit_code }
        else if e.is_exit_error
        then record r { code = default_exit_code }
        else if r.stopped
        then record r { code = forced_exit_code }
        else r)
    else r

unfoldable pub interpret_error : Option WaitError → ExitResult → ExitResult
unfolding interpret_wait_error
interpret_error none r = r
interpret_error (some e) r = interpret_wait_error e r

unfoldable pub interpret_exit : Option WaitError → ℤ → StopMode → ExitResult
unfolding interpret_error
interpret_exit wait_err code mode =
    let result : ExitResult = record {
      code = code;
      stopped = false;
      forced = false;
      closed = false;
      wait_err = wait_err;
    } in
    if is_closing mode
    then record result { stopped = true; forced = true; closed = true; code = forced_exit_code }
    else interpret_error wait_err (record result { stopped = is_interrupt mode })
