-- ===== src/Config/Tests.antt =====
-- The limits of an agent that sets none, but for the length of the replay.
use term_bridge.Prelude.{◌≡◌, refl, ok, err, pos, negsuc}
use term_bridge.Config.{
  TerminalConfig, FileConfig, GitConfig, normalize_terminal_config, validate_terminal,
  chunk_exceeds_replay,
}

abbrev terminal_limits : TerminalConfig
terminal_limits = record {
  replay_max_bytes = pos 0;
  replay_chunk_bytes = pos 0;
  queue_max_messages = pos 0;
  queue_max_bytes = pos 0;
  max_hot_terminals = pos 0;
  dispose_delay_ms = negsuc 0;
  concurrent_attaches = pos 0;
}

abbrev file : FileConfig
file = record {
  max_text_bytes = pos 0;
  max_directory_entries = negsuc 4;
  max_recursive_delete_entries = pos 0;
  operation_timeout = pos 0;
  watch_subscriber_queue_size = pos 0;
}

abbrev git : GitConfig
git = record {
  executable = "";
  command_timeout = pos 0;
  max_stdout_bytes = pos 0;
  max_stderr_bytes = pos 0;
  max_text_bytes = pos 0;
}

unset_accepted : validate_terminal (normalize_terminal_config terminal_limits) ≡ ok tt
unfolding validate_terminal normalize_terminal_config
unset_accepted = refl

-- A replay shorter than the chunk that is filled in is refused.
short_replay :
    validate_terminal
      (normalize_terminal_config (record terminal_limits { replay_max_bytes = pos 1000 }))
    ≡ err chunk_exceeds_replay
unfolding validate_terminal normalize_terminal_config
short_replay = refl
