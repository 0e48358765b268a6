-- ===== src/Terminal/Registry/Archive/Tests.antt =====
-- A history of a session that was archived once under the same id.
use term_bridge.Prelude.{true, ◌==◌, ◌||◌, if◌then◌else◌, ◌≡◌, refl, none, ok, ◌⊎◌, ◌≢◌}
use term_bridge.Terminal.Registry.Archive.{
  Files, there, missing, archive_current_history, archive_loop,
}
use term_bridge.Terminal.Registry.Archive.Free.{IsArchived, archive_current_history-IsArchived}

abbrev files : Files
files = record {
  stat = λ s. if s == "history.log" || s == "history.t.log" then there else missing;
  mkdir_ok = true;
  rename_ok = true;
  decimal = λ n. "1";
  beside = λ path name. name;
}

archive_current_history-IsArchived_example :
    ((files.stat "history.log" ≡ missing)
      × (archive_current_history files "history.log" "t"
          ≡ record { renamed = none; result = ok "" }))
    ⊎ ((files.stat "history.log" ≢ missing)
        × IsArchived files "history.log" "t" 0 1000
            (archive_current_history files "history.log" "t"))
archive_current_history-IsArchived_example =
    archive_current_history-IsArchived files "history.log" "t"

second_name : (archive_loop files "history.log" "t" 5 0).result ≡ ok "history.t.1.log"
unfolding archive_loop
second_name = refl
