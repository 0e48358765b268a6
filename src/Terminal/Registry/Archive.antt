-- ===== src/Terminal/Registry/Archive.antt =====
-- archiveCurrentHistory of internal/agent/application/task/terminal/registry.go: the history of a
-- session gets a name that is free before a rerun. What the file system answers is an argument, and so
-- are the decimal text of a number and filepath.Join with the directory of the history.
pub mod Free
mod Tests
use Prim.Native.String.{◌++◌}
use term_bridge.Prelude.{
  ℕ, zero, suc, String, Bool, true, false, not, eqb, if◌then◌else◌, Option, none, some, Result, ok,
  err,
}

-- os.Stat: the file is there, os.ErrNotExist, or another error
pub data Stat : Type 0 where
  there missing stat_failed : Stat

pub record Files : Type 0 where
  pub stat : String → Stat
  pub mkdir_ok : Bool
  pub rename_ok : Bool
  pub decimal : ℕ → String
  pub beside : String → String → String

pub data ArchiveError : Type 0 where
  no_stat no_dir no_rename exhausted : ArchiveError

-- What an archiving returns, and the paths of the rename that it has done.
pub record Archived : Type 0 where
  pub renamed : Option (String × String)
  pub result : Result ArchiveError String

unfoldable pub archive_suffix : Files → ℕ → String
archive_suffix f index = if eqb index 0 then "" else "." ++ f.decimal index

unfoldable pub archive_name : Files → String → ℕ → String
unfolding archive_suffix
archive_name f id i = "history." ++ id ++ archive_suffix f i ++ ".log"

abbrev pub not_archived : ArchiveError → Archived
not_archived e = record { renamed = none; result = err e }

unfoldable pub move_to : Files → String → String → Archived
move_to f path name =
    if not f.mkdir_ok
    then not_archived no_dir
    else if not f.rename_ok
    then not_archived no_rename
    else record { renamed = some (path, f.beside path name); result = ok name }

-- The loop from index i, for `left` more rounds.
unfoldable pub archive_loop : Files → String → String → ℕ → ℕ → Archived
unfolding archive_name move_to
archive_loop f path id zero i = not_archived exhausted
archive_loop f path id (suc left) i =
    let rest = archive_loop f path id left (suc i) in
    elim (f.stat (f.beside path (archive_name f id i))) [
      | there ↦ rest
      | stat_failed ↦ not_archived no_stat
      | missing ↦ move_to f path (archive_name f id i)
    ]

unfoldable pub archive_current_history : Files → String → String → Archived
unfolding archive_loop
archive_current_history f path id = elim (f.stat path) [
  | missing ↦ record { renamed = none; result = ok "" }
  | stat_failed ↦ not_archived no_stat
  | there ↦ archive_loop f path id 1000 0
]
