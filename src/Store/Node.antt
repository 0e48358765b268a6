-- ===== src/Store/Node.antt =====
-- internal/agent/model/task/workspace/workspace.go: what the file of a workspace holds; and the
-- conversions of store.go between it and the model of sessions. Times are numbers, 0 the zero time.
pub mod Children
use term_bridge.Prelude.{
  ℕ, String, Bool, not, ◌==◌, if◌then◌else◌, Option, none, some, List, [], ◌∷◌, ◌++◌, ℤ, pos,
  Result, ok, err,
}
use term_bridge.Prelude.Text.{contains_text}
use term_bridge.Session.State.{StateRecord, valid_state}
use term_bridge.Session.State
use term_bridge.Session.Record.{CommandRecord, HistoryRecord, Session, ProcessRecord, ExitRecord}

abbrev pub workspace_schema_version : ℕ
workspace_schema_version = 2

pub record NodeCommand : Type 0 where
  pub command : String
  pub env_strategy : String
  pub env_count : ℤ
  pub source : String
  pub shortcut_id_snapshot : String
  pub shortcut_name_snapshot : String

pub record NodeHistory : Type 0 where
  pub path : String
  pub max_lines : ℤ
  pub max_bytes : ℤ
  pub max_line_bytes : ℤ
  pub truncated : Bool

pub record NodeState : Type 0 where
  pub schema_version : ℕ
  pub state : String
  pub reason : String
  pub updated_at : ℕ

pub record NodeProcess : Type 0 where
  pub schema_version : ℕ
  pub pid : ℤ
  pub owner_pid : ℤ
  pub executable : String
  pub command_line : String
  pub cwd : String
  pub started_at : ℕ

pub record NodeExit : Type 0 where
  pub schema_version : ℕ
  pub exit_code : ℤ
  pub reason : String
  pub forced : Bool
  pub closed : Bool
  pub started_at : ℕ
  pub ended_at : ℕ
  pub wait_error : String

pub record RunRecord : Type 0 where
  pub process : Option NodeProcess
  pub exit : Option NodeExit

pub record SessionNode : Type 0 where
  pub id : String
  pub name : String
  pub launch_cwd : String
  pub command : NodeCommand
  pub history : NodeHistory
  pub state : NodeState
  pub current_run : RunRecord
  pub created_at : ℕ
  pub updated_at : ℕ

pub record WorkspaceIndex : Type 0 where
  pub schema_version : ℕ
  pub workspace_ids : List String
  pub updated_at : ℕ

pub record Workspace : Type 0 where
  pub schema_version : ℕ
  pub id : String
  pub name : String
  pub path : String
  pub session_ids : List String
  pub children : List SessionNode
  pub created_at : ℕ
  pub updated_at : ℕ

unfoldable pub node_command : CommandRecord → NodeCommand
node_command c = record {
  command = c.command;
  env_strategy = c.env_strategy;
  env_count = c.env_count;
  source = c.source;
  shortcut_id_snapshot = c.shortcut_id_snapshot;
  shortcut_name_snapshot = c.shortcut_name_snapshot;
}

unfoldable pub node_history : HistoryRecord → NodeHistory
node_history h = record {
  path = h.path;
  max_lines = h.max_lines;
  max_bytes = h.max_bytes;
  max_line_bytes = h.max_line_bytes;
  truncated = h.truncated;
}

abbrev pub zero_state : NodeState
zero_state = record { schema_version = 0; state = ""; reason = ""; updated_at = 0 }

-- The state and the run keep their zero values.
unfoldable pub session_node_from_session : Session → SessionNode
unfolding node_command node_history
session_node_from_session s = record {
  id = s.id;
  name = s.name;
  launch_cwd = s.launch_cwd;
  command = node_command s.command;
  history = node_history s.history;
  state = zero_state;
  current_run = record { process = none; exit = none };
  created_at = s.created_at;
  updated_at = s.updated_at;
}

unfoldable pub session_from_workspace_node : Workspace → SessionNode → Session
session_from_workspace_node ws child = record {
  schema_version = State.schema_version;
  id = child.id;
  name = child.name;
  workspace_id = ws.id;
  launch_cwd = child.launch_cwd;
  command = record {
    command = child.command.command;
    env_strategy = child.command.env_strategy;
    env_count = child.command.env_count;
    source = child.command.source;
    shortcut_id_snapshot = child.command.shortcut_id_snapshot;
    shortcut_name_snapshot = child.command.shortcut_name_snapshot;
  };
  history = record {
    path = child.history.path;
    max_lines = child.history.max_lines;
    max_bytes = child.history.max_bytes;
    max_line_bytes = child.history.max_line_bytes;
    truncated = child.history.truncated;
  };
  created_at = child.created_at;
  updated_at = child.updated_at;
}

unfoldable pub workspace_state_from_session : StateRecord → NodeState
workspace_state_from_session s = record {
  schema_version = s.schema_version;
  state = s.state;
  reason = s.reason;
  updated_at = s.updated_at;
}

-- `none` is the error of a state that is not valid.
unfoldable pub session_state_from_workspace : NodeState → Option StateRecord
session_state_from_workspace s =
    if not (valid_state s.state)
    then none
    else some (record {
      schema_version = s.schema_version;
      state = s.state;
      reason = s.reason;
      updated_at = s.updated_at;
    })

unfoldable pub workspace_process_from_process : ProcessRecord → NodeProcess
workspace_process_from_process p = record {
  schema_version = p.schema_version;
  pid = p.pid;
  owner_pid = p.owner_pid;
  executable = p.executable;
  command_line = p.command_line;
  cwd = p.cwd;
  started_at = p.started_at;
}

unfoldable pub process_from_workspace_process : NodeProcess → ProcessRecord
process_from_workspace_process p = record {
  schema_version = p.schema_version;
  pid = p.pid;
  owner_pid = p.owner_pid;
  executable = p.executable;
  command_line = p.command_line;
  cwd = p.cwd;
  started_at = p.started_at;
}

unfoldable pub workspace_exit_from_process : ExitRecord → NodeExit
workspace_exit_from_process e = record {
  schema_version = e.schema_version;
  exit_code = e.exit_code;
  reason = e.reason;
  forced = e.forced;
  closed = e.closed;
  started_at = e.started_at;
  ended_at = e.ended_at;
  wait_error = e.wait_error;
}

unfoldable pub process_exit_from_workspace_exit : NodeExit → ExitRecord
process_exit_from_workspace_exit e = record {
  schema_version = e.schema_version;
  exit_code = e.exit_code;
  reason = e.reason;
  forced = e.forced;
  closed = e.closed;
  started_at = e.started_at;
  ended_at = e.ended_at;
  wait_error = e.wait_error;
}

unfoldable pub find_node : List SessionNode → String → Option SessionNode
find_node [] id = none
find_node (c ∷ cs) id = let rest = find_node cs id in if c.id == id then some c else rest

unfoldable pub node_ids : List SessionNode → List String
node_ids [] = []
node_ids (c ∷ cs) = c.id ∷ node_ids cs

-- A node in the place of the first one with its id keeps that one's state and run.
abbrev pub keep_run : SessionNode → SessionNode → SessionNode
keep_run old new = record new { state = old.state; current_run = old.current_run }

-- The first loop of upsertSessionNode, which returns from it if it finds the id.
unfoldable pub replace_node : List SessionNode → SessionNode → Option (List SessionNode)
replace_node [] child = none
replace_node (c ∷ cs) child =
    let rest = replace_node cs child in
    if c.id == child.id
    then some (keep_run c child ∷ cs)
    else elim rest [ none ↦ none | some cs' ↦ some (c ∷ cs') ]

abbrev pub ids_or_all : List String → List SessionNode → List String
ids_or_all [] children = node_ids children
ids_or_all (id ∷ ids) children = id ∷ ids

unfoldable pub replaced_or_added : Workspace → SessionNode → Option (List SessionNode) → Workspace
unfolding node_ids
replaced_or_added ws child (some children') = record ws { children = children' }
replaced_or_added ws child none = record ws {
  children = ws.children ++ child ∷ [];
  session_ids = ids_or_all ws.session_ids ws.children ++ child.id ∷ [];
}

unfoldable pub upsert_session_node : Workspace → SessionNode → Workspace
unfolding replaced_or_added replace_node
upsert_session_node ws child = replaced_or_added ws child (replace_node ws.children child)

-- removeSessionNode and removeString drop the first match.
unfoldable pub remove_node : List SessionNode → String → List SessionNode
remove_node [] id = []
remove_node (c ∷ cs) id = let rest = remove_node cs id in if c.id == id then cs else c ∷ rest

unfoldable pub remove_string : List String → String → List String
remove_string [] id = []
remove_string (s ∷ ss) id = let rest = remove_string ss id in if s == id then ss else s ∷ rest

unfoldable pub remove_session : Workspace → String → Workspace
unfolding remove_node remove_string
remove_session ws id = record ws {
  children = remove_node ws.children id;
  session_ids = remove_string ws.session_ids id;
}

-- The loop of updateSessionNode: the first node with the id is changed.
unfoldable pub update_node :
    (SessionNode → SessionNode)
    → List SessionNode
    → String
    → Option (List SessionNode × SessionNode)
update_node change [] id = none
update_node change (c ∷ cs) id =
    let rest = update_node change cs id in
    if c.id == id
    then some (change c ∷ cs, change c)
    else elim rest [ none ↦ none | some (cs', c') ↦ some (c ∷ cs', c') ]
