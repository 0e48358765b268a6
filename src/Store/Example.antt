-- ===== src/Store/Example.antt =====
-- A store for the tests: a disk with one workspace of two sessions, on a machine where everything
-- works.
use term_bridge.Prelude.{
  String, true, false, ◌==◌, eq_iff, ◌≡◌, refl, sym, ap, subst, ◌∙◌, Option, none, some, List, [],
  ◌∷◌, Result, ok, err, pos, arith, Bool-cases, inl, inr,
}
use term_bridge.Prelude.Text.{contains_text}
use term_bridge.Session.Record.{Session, View}
use term_bridge.Store.Node.{Workspace, WorkspaceIndex, node_ids, session_node_from_session}
use term_bridge.Store.Node.Children.{IsDistinct}
use term_bridge.Store.Disk.{Json, Os, Disk, Warning, wrote, put_file}
use term_bridge.Store.Disk.Saved.{IsFaithful, workspace_at}
use term_bridge.Store.Sessions.Kept.{IsWell}

pub data Page : Type 0 where
  workspace_page : Workspace → Page
  index_page : WorkspaceIndex → Page

abbrev pub read_workspace_page : Page → Option Workspace
read_workspace_page (workspace_page w) = some w
read_workspace_page (index_page i) = none

abbrev pub read_index_page : Page → Option WorkspaceIndex
read_index_page (workspace_page w) = none
read_index_page (index_page i) = some i

abbrev pub json : Json Page
json = record {
  write_workspace = workspace_page;
  read_workspace = read_workspace_page;
  write_index = index_page;
  read_index = read_index_page;
}

abbrev pub faithful : IsFaithful json
faithful = record { workspaces = λ w. refl; indices = λ i. refl }

abbrev pub healthy : Os
healthy = record {
  stat_fails = λ w. false;
  read_fails = λ w. false;
  write = λ w. wrote;
  remove_fails = λ w. false;
  remove_session_fails = false;
  list_fails = false;
  read_index_fails = false;
  write_index = wrote;
}

abbrev pub list_or_none :
    {E : Type 0} → Result E (List View × List Warning) → List View × List Warning
list_or_none (err e) = ([], [])
list_or_none (ok l) = l

abbrev pub session : String → Session
session id = record {
  schema_version = 1;
  id = id;
  name = "shell";
  workspace_id = "w1";
  launch_cwd = "/home";
  command = record {
    command = "sh";
    env_strategy = "inherit";
    env_count = pos 0;
    source = "";
    shortcut_id_snapshot = "";
    shortcut_name_snapshot = "";
  };
  history = record {
    path = "history.log";
    max_lines = pos 1000;
    max_bytes = pos 65536;
    max_line_bytes = pos 4096;
    truncated = false;
  };
  created_at = 10;
  updated_at = 10;
}

abbrev pub workspace : Workspace
workspace = record {
  schema_version = 2;
  id = "w1";
  name = "home";
  path = "/home";
  session_ids = "s1" ∷ "s2" ∷ [];
  children =
      session_node_from_session (session "s1") ∷ session_node_from_session (session "s2") ∷ [];
  created_at = 1;
  updated_at = 1;
}

abbrev pub disk : Disk Page
disk = record {
  root = true;
  dirs = "w1" ∷ [];
  files = put_file (λ w. none) "w1" (some (workspace_page workspace));
  index = none;
}

or_else : Workspace → Option Workspace → Workspace
or_else z none = z
or_else z (some w) = w

workspace_there : (w : String) → (w == "w1") ≡ true → workspace_at json disk w ≡ some workspace
workspace_there w y = rw y

nothing_there : (w : String) → (w == "w1") ≡ false → workspace_at json disk w ≡ none
nothing_there w n = rw n

nowhere : (u : Workspace) → none ≡ some u → ⊥
nowhere u h = ground (arith, h)

workspace-IsDistinct : IsDistinct (node_ids workspace.children)
unfolding node_ids contains_text session_node_from_session
workspace-IsDistinct = (refl, (refl, tt))

pub disk-IsWell : IsWell json disk
unfolding or_else
disk-IsWell w u e = elim (Bool-cases (w == "w1")) [
  | inl y ↦
      let q : workspace ≡ u = ap (or_else workspace) (sym (workspace_there w y) ∙ e) in
      (
        sym (ap (λ x. x.id) q) ∙ sym ((eq_iff w "w1").0 y),
        subst (λ x. IsDistinct (node_ids x.children)) q workspace-IsDistinct,
      )
  | inr n ↦ absurd (nowhere u (sym (nothing_there w n) ∙ e))
]
