-- ===== src/Terminal/Registry/Tests.antt =====
-- Starts of the session "s1".
use term_bridge.Prelude.{◌+◌, ◌≤◌, true, false, none, some, ◌≡◌, refl, ok, arith, pos, []}
use term_bridge.Prelude.Text.{trim_space}
use term_bridge.Protocol.Terminal.{validate_size}
use term_bridge.Process.Size.{TerminalSize, or_default, new_spec}
use term_bridge.Session.Record.{Session}
use term_bridge.Session.State.{terminal}
use term_bridge.Terminal.Registry.{
  new_registry, claim_session_start, release_session_start, add_runtime, StartWorld, started,
  start_claimed_session_runtime,
}
use term_bridge.Terminal.Registry.Processes.{
  Host, new_host, claims, spawns, registers, Reach, fresh, after, one_process_per_session, more,
  fewer,
}
use term_bridge.Terminal.Registry.Rerun.{RerunWorld, rerun_session}
use term_bridge.Terminal.Registry.Rerun.Claims.{IsRerun, rerun_session-IsRerun}

abbrev with_claim : Host
with_claim = record new_host {
  registry = (claim_session_start new_registry "s1").0;
  claimed = more (λ s. 0) "s1";
}

abbrev with_process : Host
with_process = record with_claim {
  claimed = fewer with_claim.claimed "s1";
  spawned = more with_claim.spawned "s1";
  processes = more with_claim.processes "s1";
}

abbrev with_runtime : Host
with_runtime = record with_process {
  registry = add_runtime with_process.registry "s1";
  spawned = fewer with_process.spawned "s1";
  registered = more with_process.registered "s1";
}

first_claim : (claim_session_start new_registry "s1").1 ≡ ok tt
unfolding claim_session_start new_registry
first_claim = refl

with_runtime-Reach : Reach with_runtime
with_runtime-Reach =
    after (after (after fresh (claims "s1" first_claim)) (spawns "s1" (ground arith)))
      (registers "s1" (ground arith))

one_process_per_session_example :
    (with_runtime.processes "s1" ≤ 1)
    × (with_runtime.registry.runtimes "s1" ≡ true → with_runtime.spawned "s1" ≡ 0)
    × (with_runtime.claimed "s1" + with_runtime.spawned "s1" + with_runtime.registered "s1" ≤ 1)
one_process_per_session_example = one_process_per_session with_runtime with_runtime-Reach "s1"

abbrev session : Session
session = record {
  schema_version = 1;
  id = "s1";
  name = "shell";
  workspace_id = "w1";
  launch_cwd = "/home";
  command = record {
    command = "sh";
    env_strategy = "inherit";
    env_count = pos 0;
    source = "";
    shortcut_id_snapshot = "";
    shortcut_name_snapshot = "";
  };
  history = record {
    path = "history.log";
    max_lines = pos 1000;
    max_bytes = pos 65536;
    max_line_bytes = pos 4096;
    truncated = false;
  };
  created_at = 10;
  updated_at = 10;
}

abbrev world : StartWorld
world = record {
  history_error = none;
  sanitized_env = [];
  pty = started none;
  save_error = none;
  now = 50;
}

abbrev size : TerminalSize
size = record { cols = pos 80; rows = pos 25 }

abbrev stopped : RerunWorld
stopped = record {
  view = ok (record {
    session = session;
    state = record { schema_version = 1; state = "stopped"; reason = ""; updated_at = 20 };
    exit_code = some (pos 0);
    exit_reason = "";
    command_text = "sh";
  });
  is_dir = true;
  archive_ok = true;
  begin_ok = none;
  start = world;
  failed_at = 60;
}

rerun_session-IsRerun_example : IsRerun new_registry (rerun_session new_registry stopped size)
rerun_session-IsRerun_example = rerun_session-IsRerun new_registry stopped size

-- The rerun registers a runtime.
rerun_registers : (rerun_session new_registry stopped size).registry.runtimes "s1" ≡ true
unfolding rerun_session terminal trim_space validate_size or_default claim_session_start
    new_registry release_session_start start_claimed_session_runtime new_spec
rerun_registers = refl
