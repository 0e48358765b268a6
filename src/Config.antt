-- ===== src/Config.antt =====
-- The limits of the agent in internal/shared/infrastructure/config/config.go: what replaces a limit
-- that is not set, and which limits are refused. A duration is its nanoseconds.
pub mod Limits
pub mod Servers
mod Tests
use term_bridge.Prelude.{
  ℕ, String, Bool, true, false, not, ◌&&◌, ◌||◌, ◌==◌, ◌*◌, if◌then◌else◌, Result, ok, err, ◌>>=◌,
  ◌>>◌, fail_if, ℤ, pos, lt_int,
}
use term_bridge.Prelude.Text.{trim_space}

-- The keys that the errors name.
pub data ConfigError : Type 0 where
  max_lines max_bytes max_line_bytes : ConfigError
  replay_max_bytes replay_chunk_bytes chunk_exceeds_replay replay_exceeds_queue : ConfigError
  queue_max_messages queue_max_bytes max_hot_terminals dispose_delay_ms concurrent_attaches :
      ConfigError
  max_text_bytes max_directory_entries max_recursive_delete_entries operation_timeout
        watch_subscriber_queue_size :
      ConfigError
  executable command_timeout max_stdout_bytes max_stderr_bytes git_max_text_bytes : ConfigError

pub record HistoryConfig : Type 0 where
  pub max_lines : ℤ
  pub max_bytes : ℤ
  pub max_line_bytes : ℤ

-- TerminalConfig with the structs that it holds, less the history.
pub record TerminalConfig : Type 0 where
  pub replay_max_bytes : ℤ
  pub replay_chunk_bytes : ℤ
  pub queue_max_messages : ℤ
  pub queue_max_bytes : ℤ
  pub max_hot_terminals : ℤ
  pub dispose_delay_ms : ℤ
  pub concurrent_attaches : ℤ

pub record FileConfig : Type 0 where
  pub max_text_bytes : ℤ
  pub max_directory_entries : ℤ
  pub max_recursive_delete_entries : ℤ
  pub operation_timeout : ℤ
  pub watch_subscriber_queue_size : ℤ

pub record GitConfig : Type 0 where
  pub executable : String
  pub command_timeout : ℤ
  pub max_stdout_bytes : ℤ
  pub max_stderr_bytes : ℤ
  pub max_text_bytes : ℤ

-- `if n < 1`, and `if n <= 0` is the same test.
abbrev pub below_one : ℤ → Bool
below_one n = lt_int n (pos 1)

unfoldable pub positive_or : ℕ → ℤ → ℤ
positive_or default n = if below_one n then pos default else n

unfoldable pub not_negative_or : ℕ → ℤ → ℤ
not_negative_or default n = if lt_int n (pos 0) then pos default else n

unfoldable pub validate_history : HistoryConfig → Result ConfigError (Unit {0})
validate_history c = do
  fail_if (below_one c.max_lines) max_lines
  fail_if (below_one c.max_bytes) max_bytes
  fail_if (below_one c.max_line_bytes) max_line_bytes

unfoldable pub normalize_terminal_config : TerminalConfig → TerminalConfig
unfolding positive_or not_negative_or
normalize_terminal_config c = record {
  replay_max_bytes = positive_or 65536 c.replay_max_bytes;
  replay_chunk_bytes = positive_or 65536 c.replay_chunk_bytes;
  queue_max_messages = positive_or 64 c.queue_max_messages;
  queue_max_bytes = positive_or 4194304 c.queue_max_bytes;
  max_hot_terminals = positive_or 4 c.max_hot_terminals;
  dispose_delay_ms = not_negative_or 30000 c.dispose_delay_ms;
  concurrent_attaches = positive_or 8 c.concurrent_attaches;
}

unfoldable pub validate_terminal : TerminalConfig → Result ConfigError (Unit {0})
validate_terminal c = do
  fail_if (below_one c.replay_max_bytes) replay_max_bytes
  fail_if (below_one c.replay_chunk_bytes) replay_chunk_bytes
  fail_if (lt_int c.replay_max_bytes c.replay_chunk_bytes) chunk_exceeds_replay
  fail_if (below_one c.queue_max_messages) queue_max_messages
  fail_if (below_one c.queue_max_bytes) queue_max_bytes
  fail_if (not (lt_int c.replay_max_bytes c.queue_max_bytes)) replay_exceeds_queue
  fail_if (below_one c.max_hot_terminals || lt_int (pos 16) c.max_hot_terminals) max_hot_terminals
  fail_if (lt_int c.dispose_delay_ms (pos 0) || lt_int (pos 600000) c.dispose_delay_ms)
      dispose_delay_ms
  fail_if (below_one c.concurrent_attaches || lt_int (pos 256) c.concurrent_attaches)
      concurrent_attaches

unfoldable pub normalize_file_config : FileConfig → FileConfig
unfolding positive_or
normalize_file_config c = record {
  max_text_bytes = positive_or 1048576 c.max_text_bytes;
  max_directory_entries = positive_or 1000 c.max_directory_entries;
  max_recursive_delete_entries = positive_or 10000 c.max_recursive_delete_entries;
  operation_timeout = positive_or 10000000000 c.operation_timeout;
  watch_subscriber_queue_size = positive_or 64 c.watch_subscriber_queue_size;
}

unfoldable pub validate_file : FileConfig → Result ConfigError (Unit {0})
validate_file c = do
  fail_if (below_one c.max_text_bytes) max_text_bytes
  fail_if (below_one c.max_directory_entries) max_directory_entries
  fail_if (below_one c.max_recursive_delete_entries) max_recursive_delete_entries
  fail_if (below_one c.operation_timeout) operation_timeout
  fail_if (below_one c.watch_subscriber_queue_size) watch_subscriber_queue_size

unfoldable pub normalize_git_config : GitConfig → GitConfig
unfolding positive_or
normalize_git_config c = record {
  executable = if c.executable == "" then "git" else c.executable;
  command_timeout = positive_or 10000000000 c.command_timeout;
  max_stdout_bytes = positive_or 4194304 c.max_stdout_bytes;
  max_stderr_bytes = positive_or 65536 c.max_stderr_bytes;
  max_text_bytes = positive_or 1048576 c.max_text_bytes;
}

abbrev pub max_git_command_timeout : ℤ
max_git_command_timeout = pos 10000000000

unfoldable pub validate_git : GitConfig → Result ConfigError (Unit {0})
unfolding trim_space
validate_git c = do
  fail_if (trim_space c.executable == "") executable
  fail_if (below_one c.command_timeout || lt_int max_git_command_timeout c.command_timeout)
      command_timeout
  fail_if (below_one c.max_stdout_bytes) max_stdout_bytes
  fail_if (below_one c.max_stderr_bytes) max_stderr_bytes
  fail_if (below_one c.max_text_bytes || lt_int c.max_stdout_bytes c.max_text_bytes)
      git_max_text_bytes
