-- ===== src/Session/Tests.antt =====
-- A session that is stored as running, and its recovery.
use term_bridge.Prelude.{true, false, none, ok, pos}
use term_bridge.Session.Record.{View, ProcessRecord}
use term_bridge.Session.Recovery.{World, alive_unverified}

abbrev process : ProcessRecord
process = record {
  schema_version = 1;
  pid = pos 4242;
  owner_pid = pos 4000;
  executable = "/bin/sh";
  command_line = "sh";
  cwd = "/home";
  started_at = 10;
}

abbrev stored : View
stored = record {
  session = record {
    schema_version = 1;
    id = "s1";
    name = "shell";
    workspace_id = "w1";
    launch_cwd = "/home";
    command = record {
      command = "sh";
      env_strategy = "inherit";
      env_count = pos 0;
      source = "";
      shortcut_id_snapshot = "";
      shortcut_name_snapshot = "";
    };
    history = record {
      path = "history.log";
      max_lines = pos 1000;
      max_bytes = pos 65536;
      max_line_bytes = pos 4096;
      truncated = false;
    };
    created_at = 10;
    updated_at = 10;
  };
  state = record {
    schema_version = 1;
    state = "running";
    reason = "process_started";
    updated_at = 10;
  };
  exit_code = none;
  exit_reason = "";
  command_text = "sh";
}

-- A machine on which another program has the process id by now.
abbrev reused_pid : World
reused_pid = record {
  process = ok process;
  check = λ p. alive_unverified;
  has_exit = false;
  save_ok = true;
  now = 50;
}
