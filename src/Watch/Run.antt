-- ===== src/Watch/Run.antt =====
-- The loop of a watch of internal/agent/infrastructure/workspacewatch/manager.go: the paths of events,
-- and what each event makes known. The functions of path/filepath and the answers of the operating
-- system are arguments.
use text.Mathlib.Text.{starts_with}
use Prim.Native.String
use term_bridge.Prelude.{
  ℕ, String, Bool, true, false, not, ◌&&◌, ◌||◌, ◌==◌, if◌then◌else◌, Option, none, some, List, [],
  ◌∷◌, Result, ok, err,
}
use term_bridge.Prelude.Text.{contains}
use term_bridge.File.{PathLib, PathError, parse_relative_path, is_required}
use term_bridge.Git.{ends_with}
use term_bridge.Watch.{
  RootWatcher, added, close, deleted, publish, publish_rescan_and_close, updated,
}

-- The functions of path/filepath.
pub record FilePath : Type 0 where
  pub rel : String → String → Option String
  pub is_abs : String → Bool
  pub to_slash : String → String
  pub base : String → String
  pub separator : String
  pub slash_paths : PathLib

unfoldable pub is_inside : FilePath → String → Bool
is_inside f relative = not (
    relative == "."
    || f.is_abs relative
    || relative == ".."
    || starts_with relative (String.◌++◌ ".." f.separator))

unfoldable pub workspace_path : FilePath → String → String → Result PathError String
unfolding is_inside parse_relative_path
workspace_path f root value = elim (f.rel root value) [
  | none ↦ err is_required
  | some relative ↦
      if is_inside f relative
      then parse_relative_path f.slash_paths (f.to_slash relative) false
      else err is_required
]

-- isTermBridgeTemporaryFile
unfoldable pub is_temporary_file : FilePath → String → Bool
unfolding contains ends_with
is_temporary_file f value =
    contains (f.base value) ".termbridge-" && ends_with (f.base value) ".tmp"

pub record Event : Type 0 where
  pub name : String
  pub is_rename : Bool
  pub is_create : Bool
  pub is_remove : Bool
  pub is_write : Bool
  pub is_chmod : Bool

-- os.Lstat of a path that was created.
pub data Lstat : Type 0 where
  stat_failed not_there : Lstat
  there : Bool → Lstat

-- The operating system at one event: whether a directory that was created can be watched,
-- and which events readers take if it ends the watch.
pub record WatchWorld : Type 0 where
  pub lstat : Lstat
  pub tree_added : Bool
  pub reads : ℕ → List Bool

-- Whether the watch of what was created is complete.
abbrev pub is_watched : WatchWorld → Lstat → Bool
is_watched w stat_failed = false
is_watched w not_there = true
is_watched w (there is_dir) = not is_dir || w.tree_added

unfoldable pub handle_change : ℕ → WatchWorld → Event → String → RootWatcher → RootWatcher
unfolding publish publish_rescan_and_close
handle_change size w e path r =
    if e.is_rename
    then publish_rescan_and_close w.reads r
    else if e.is_create
    then if is_watched w w.lstat
      then publish size w.reads added path r
      else publish_rescan_and_close w.reads r
    else if e.is_remove
    then publish size w.reads deleted path r
    else if e.is_write || e.is_chmod
    then publish size w.reads updated path r
    else r

unfoldable pub handle_event : FilePath → ℕ → WatchWorld → Event → RootWatcher → RootWatcher
unfolding is_temporary_file workspace_path handle_change publish_rescan_and_close
handle_event f size w e r =
    if is_temporary_file f e.name then r else elim (workspace_path f r.root e.name) [
      | err _ ↦ publish_rescan_and_close w.reads r
      | ok path ↦ handle_change size w e path r
    ]

-- What the loop of run selects: an event, the end of a channel, an error, or the end of the manager.
pub data Signal : Type 0 where
  context_done events_closed errors_closed watch_error : Signal
  got_event : WatchWorld → Event → Signal

-- The loop of run, with the events that readers take when it ends; it always closes the watch.
unfoldable pub run : FilePath → ℕ → (ℕ → List Bool) → List Signal → RootWatcher → RootWatcher
unfolding handle_event publish_rescan_and_close close
run f size reads [] r = close r
run f size reads (context_done ∷ ss) r = close r
run f size reads (events_closed ∷ ss) r = close (publish_rescan_and_close reads r)
run f size reads (errors_closed ∷ ss) r = close (publish_rescan_and_close reads r)
run f size reads (watch_error ∷ ss) r = close (publish_rescan_and_close reads r)
run f size reads (got_event w e ∷ ss) r = run f size reads ss (handle_event f size w e r)
