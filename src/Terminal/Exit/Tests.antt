-- ===== src/Terminal/Exit/Tests.antt =====
-- A wait that fails for an unknown reason, and one that is cut off.
use term_bridge.Prelude.{false, some, pos}
use term_bridge.Terminal.Exit.{WaitResult}

abbrev lost : WaitResult
lost = record {
  exit_code = pos 0;
  wait_error = some (record { is_windows_closed = false; is_exit_error = false });
  error_text = "wait: no child processes";
}
