-- ===== src/Shortcut/Tests.antt =====
-- Two shortcuts, one of which is disabled.
use term_bridge.Prelude.{String, false, none, some, List, [], ◌∷◌, pos}
use term_bridge.Session.Record.{CommandRecord}
use term_bridge.Shortcut.{Shortcut}

abbrev shell : Shortcut
shell = record {
  schema_version = 1;
  id = "c1";
  name = "shell";
  command = "sh";
  description = none;
  icon = none;
  enabled = none;
  tags = [];
  last_used_at = 0;
  created_at = 1;
  updated_at = 1;
}

abbrev shortcuts : List Shortcut
shortcuts = record shell { id = "c0"; enabled = some false } ∷ shell ∷ []

abbrev command : CommandRecord
command = record {
  command = "sh";
  env_strategy = "";
  env_count = pos 0;
  source = "shortcut";
  shortcut_id_snapshot = " c1 ";
  shortcut_name_snapshot = "shell";
}

abbrev values : List String
values = " dev " ∷ "" ∷ "dev" ∷ "ops" ∷ []
