-- ===== src/Process/Size.antt =====
-- internal/agent/model/task/process/spec.go. The sanitizing of the environment, which reads the
-- process's own environment, is an argument.
use term_bridge.Prelude.{
  String, Bool, ◌&&◌, List, ◌==◌, if◌then◌else◌, Result, ok, ◌>>◌, fail_if, ℤ, pos, lt_int, eq_int,
}
use term_bridge.Prelude.Text.{trim_space}

pub record TerminalSize : Type 0 where
  pub cols : ℤ
  pub rows : ℤ

unfoldable pub default_terminal_size : TerminalSize
default_terminal_size = record { cols = pos 80; rows = pos 25 }

unfoldable pub is_valid : TerminalSize → Bool
is_valid s = lt_int (pos 0) s.cols && lt_int (pos 0) s.rows

unfoldable pub or_default : TerminalSize → TerminalSize
unfolding is_valid default_terminal_size
or_default s = if is_valid s then s else default_terminal_size

-- Go's == on the struct.
abbrev pub same_size : TerminalSize → TerminalSize → Bool
same_size s t = eq_int s.cols t.cols && eq_int s.rows t.rows

pub record ProcessSpec : Type 0 where
  pub command_text : String
  pub cwd : String
  pub env : List String
  pub initial_size : TerminalSize

pub data SpecError : Type 0 where
  missing_command missing_cwd : SpecError

unfoldable pub new_spec :
    List String → String → String → TerminalSize → Result SpecError ProcessSpec
new_spec sanitized cwd command size = do
  fail_if (trim_space command == "") missing_command
  ok (record { command_text = command; cwd = cwd; env = sanitized; initial_size = or_default size })

unfoldable pub validate : ProcessSpec → Result SpecError (Unit {0})
validate s = do
  fail_if (trim_space s.command_text == "") missing_command
  fail_if (trim_space s.cwd == "") missing_cwd
