-- ===== src/Config/Limits.antt =====
-- Which limits of the agent are accepted after config.go has replaced those that are not set.
use term_bridge.Prelude.{
  ℕ, suc, Bool, true, false, not, ◌||◌, ◌==◌, if_both, ◌≡◌, ◌↔◌, ok, ◌>>◌, fail_if, ℤ, pos, lt_int,
  arith,
}
use term_bridge.Prelude.Text.{trim_space}
use term_bridge.Config.{
  ConfigError, TerminalConfig, FileConfig, GitConfig, below_one, positive_or, not_negative_or,
  normalize_terminal_config, validate_terminal, normalize_file_config, validate_file,
  normalize_git_config, validate_git, max_git_command_timeout,
}

positive_or_above : (k : ℕ) (n : ℤ) → below_one (positive_or (suc k) n) ≡ false
unfolding positive_or
positive_or_above k n =
    if_both (λ z. below_one z ≡ false) (below_one n) (pos (suc k)) n (λ _. ground arith) (λ h. h)

not_negative_above : (k : ℕ) (n : ℤ) → lt_int (not_negative_or k n) (pos 0) ≡ false
unfolding not_negative_or
not_negative_above k n =
    if_both (λ z. lt_int z (pos 0) ≡ false) (lt_int n (pos 0)) (pos k) n (λ _. ground arith)
      (λ h. h)

file_accepted : (c : FileConfig) → validate_file (normalize_file_config c) ≡ ok tt
unfolding validate_file normalize_file_config
file_accepted c = rw (
  positive_or_above 1048575 c.max_text_bytes,
  positive_or_above 999 c.max_directory_entries,
  positive_or_above 9999 c.max_recursive_delete_entries,
  positive_or_above 9999999999 c.operation_timeout,
  positive_or_above 63 c.watch_subscriber_queue_size,
)

terminal_checks :
    (a b c d e f g g' h h' i i' : Bool) (e1 e2 e3 e4 e5 e6 e7 e8 e9 : ConfigError)
    → a ≡ false
    → b ≡ false
    → d ≡ false
    → e ≡ false
    → g ≡ false
    → h ≡ false
    → i ≡ false
    → ((fail_if a e1
          >> (fail_if b e2
              >> (fail_if c e3
                  >> (fail_if d e4
                      >> (fail_if e e5
                          >> (fail_if (not f) e6
                              >> (fail_if (g || g') e7
                                  >> (fail_if (h || h') e8 >> fail_if (i || i') e9))))))))
        ≡ ok tt)
      ↔ ((c ≡ false) × (f ≡ true) × (g' ≡ false) × (h' ≡ false) × (i' ≡ false))
terminal_checks a b c d e f g g' h h' i i' e1 e2 e3 e4 e5 e6 e7 e8 e9 p q r s u v w = ground arith

git_checks :
    (a b b' c d e e' : Bool) (e1 e2 e3 e4 e5 : ConfigError)
    → b ≡ false
    → c ≡ false
    → d ≡ false
    → e ≡ false
    → ((fail_if a e1
          >> (fail_if (b || b') e2 >> (fail_if c e3 >> (fail_if d e4 >> fail_if (e || e') e5))))
        ≡ ok tt)
      ↔ ((a ≡ false) × (b' ≡ false) × (e' ≡ false))
git_checks a b b' c d e e' e1 e2 e3 e4 e5 p q r s = ground arith

-- Terminal limits that are normalized are accepted exactly when a chunk of the replay is at most the
-- replay, the replay is less than the queue of a client, at most 16 terminals are kept, for at most
-- 600000 ms, and at most 256 are attached: no limit is refused for not being positive. Normalized
-- file limits are always accepted. Normalized git limits are accepted exactly when the executable is
-- not blank, the timeout is at most 10 s, and a text is at most the output.
pub limits_accepted_iff :
    (t : TerminalConfig) (f : FileConfig) (g : GitConfig)
    → ((validate_terminal (normalize_terminal_config t) ≡ ok tt) ↔ (
        (lt_int
            (normalize_terminal_config t).replay_max_bytes
            (normalize_terminal_config t).replay_chunk_bytes
          ≡ false)
        × (lt_int
              (normalize_terminal_config t).replay_max_bytes
              (normalize_terminal_config t).queue_max_bytes
            ≡ true)
        × (lt_int (pos 16) (normalize_terminal_config t).max_hot_terminals ≡ false)
        × (lt_int (pos 600000) (normalize_terminal_config t).dispose_delay_ms ≡ false)
        × (lt_int (pos 256) (normalize_terminal_config t).concurrent_attaches ≡ false)))
      × (validate_file (normalize_file_config f) ≡ ok tt)
      × ((validate_git (normalize_git_config g) ≡ ok tt) ↔ (
          ((trim_space (normalize_git_config g).executable == "") ≡ false)
          × (lt_int max_git_command_timeout (normalize_git_config g).command_timeout ≡ false)
          × (lt_int
                (normalize_git_config g).max_stdout_bytes
                (normalize_git_config g).max_text_bytes
              ≡ false)))
unfolding validate_terminal normalize_terminal_config validate_git normalize_git_config
limits_accepted_iff t f g = (
  terminal_checks _ _ _ _ _ _ _ _ _ _ _ _ _ _ _ _ _ _ _ _ _
      (positive_or_above 65535 t.replay_max_bytes) (positive_or_above 65535 t.replay_chunk_bytes)
      (positive_or_above 63 t.queue_max_messages) (positive_or_above 4194303 t.queue_max_bytes)
      (positive_or_above 3 t.max_hot_terminals) (not_negative_above 30000 t.dispose_delay_ms)
      (positive_or_above 7 t.concurrent_attaches),
  file_accepted f,
  git_checks _ _ _ _ _ _ _ _ _ _ _ _ (positive_or_above 9999999999 g.command_timeout)
      (positive_or_above 4194303 g.max_stdout_bytes) (positive_or_above 65535 g.max_stderr_bytes)
      (positive_or_above 1048575 g.max_text_bytes),
)
