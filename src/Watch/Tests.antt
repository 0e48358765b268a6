-- ===== src/Watch/Tests.antt =====
-- A watch whose channels have room for one event.
use term_bridge.Prelude.{[], ◌+◌, true, false, some, All, ◌≡◌, refl, arith}
use term_bridge.Watch.{added, RootWatcher, new_root_watcher, subscribe, publish, take_events}
use term_bridge.Watch.Run.{
  FilePath, WatchWorld, Event, there, handle_event, handle_change, is_temporary_file,
  workspace_path,
}
use term_bridge.Watch.Safety.{Inv}
use term_bridge.Watch.Steps.{Reached, started, then_step, subscribes, handles, watch_invariant}
use term_bridge.Watch.Readers.{IsRead, ended-IsRead, HasReached, publish-HasReached}

abbrev files : FilePath
files = record {
  rel = λ root value. some value;
  is_abs = λ s. false;
  to_slash = λ s. s;
  base = λ s. s;
  separator = "/";
  slash_paths = record { clean = λ s. s; dir = λ s. s; base = λ s. s };
}

abbrev world : WatchWorld
world = record { lstat = there false; tree_added = true; reads = λ _. [] }

abbrev written : Event
written = record {
  name = "a.go";
  is_rename = false;
  is_create = false;
  is_remove = false;
  is_write = true;
  is_chmod = false;
}

subscribed : RootWatcher
subscribed = (subscribe (new_root_watcher "root")).0

one_change : RootWatcher
one_change = handle_event files 1 world written subscribed

two_changes : RootWatcher
two_changes = handle_event files 1 world written one_change

two_changes-Reached : Reached files 1 two_changes
unfolding two_changes one_change subscribed
two_changes-Reached =
    then_step (then_step (then_step (started "root") subscribes) (handles world written))
      (handles world written)

watch_invariant_example : Inv 1 two_changes
watch_invariant_example = watch_invariant 1 files two_changes (ground (arith)) two_changes-Reached

ended-IsRead_example : All (λ s. IsRead (take_events 1 s)) two_changes.ended
ended-IsRead_example = ended-IsRead files 1 two_changes (ground (arith)) two_changes-Reached

subscribed_is_open : subscribed.closed ≡ false
unfolding subscribed subscribe new_root_watcher
subscribed_is_open = refl

publish-HasReached_example :
    HasReached
      (record { sequence = subscribed.sequence + 1; kind = added; path = "a.go" })
      subscribed
      (publish 1 (λ _. []) added "a.go" subscribed)
publish-HasReached_example =
    publish-HasReached 1 (λ _. []) added "a.go" subscribed subscribed_is_open

full_channel_closes : two_changes.closed ≡ true
unfolding two_changes one_change subscribed subscribe new_root_watcher handle_event handle_change
    publish workspace_path is_temporary_file
full_channel_closes = refl
