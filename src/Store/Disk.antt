-- ===== src/Store/Disk.antt =====
-- The files of the store: writeJSON, readJSON, the index of workspaces and the operations on whole
-- workspaces in store.go. The codec of encoding/json and what the operating system answers during
-- one call are parameters; a workspace's directory is known by the id. A value whose decoding fails
-- is the zero value.
pub mod Saved
use Prim.Native.Nat.{Ordering}
use Prim.Native.String.{compare}
use term_bridge.Prelude.{
  ℕ, String, Bool, true, false, not, ◌&&◌, ◌==◌, if◌then◌else◌, Option, none, some, List, [], ◌∷◌,
  ◌++◌, Result, ok, err, ◌>>=◌, ◌>>◌,
}
use term_bridge.Prelude.Text.{contains_text}
use term_bridge.Store.Node.{Workspace, WorkspaceIndex, workspace_schema_version, remove_string}
use term_bridge.Store.Order.{OrderError, less_text, complete_ordered_ids, sort_workspaces}

-- json.MarshalIndent of values that always have a JSON text, and json.Unmarshal.
pub record Json (B : Type 0) : Type 0 where
  pub write_workspace : Workspace → B
  pub read_workspace : B → Option Workspace
  pub write_index : WorkspaceIndex → B
  pub read_index : B → Option WorkspaceIndex

-- What a write to a path ends in: the directory is not made; the file is as before; the file is
-- gone, since replaceFile removes it when the first rename fails; or the file is written.
pub data WriteOutcome : Type 0 where
  not_made not_written lost wrote : WriteOutcome

-- What the operating system answers.
pub record Os : Type 0 where
  pub stat_fails : String → Bool
  pub read_fails : String → Bool
  pub write : String → WriteOutcome
  pub remove_fails : String → Bool
  pub remove_session_fails : Bool
  pub list_fails : Bool
  pub read_index_fails : Bool
  pub write_index : WriteOutcome

-- The directory of workspaces: whether it is there, its subdirectories by name, the workspace.json
-- in each, and index.json.
pub record Disk (B : Type 0) : Type 0 where
  pub root : Bool
  pub dirs : List String
  pub files : String → Option B
  pub index : Option B

pub data StoreError : Type 0 where
  not_exist io_failed decode_failed no_longer_terminal update_refused : StoreError
  invalid_state : String → StoreError
  bad_order : OrderError → StoreError

pub data Warning : Type 0 where
  in_workspace : String → StoreError → Warning
  in_index : StoreError → Warning
  in_session : String → String → Warning

unfoldable pub insert_dir : String → List String → List String
insert_dir id [] = id ∷ []
insert_dir id (d ∷ ds) =
    let rest = insert_dir id ds in
    if d == id then d ∷ ds else if less_text d id then d ∷ rest else id ∷ d ∷ ds

abbrev pub put_file {ℓ} : {A : Type ℓ} → (String → A) → String → A → String → A
put_file files id x s = if s == id then x else files s

abbrev pub empty_index : WorkspaceIndex
empty_index = record { schema_version = 0; workspace_ids = []; updated_at = 0 }

abbrev pub is_absent {ℓ} : {A : Type ℓ} → Option A → Bool
is_absent none = true
is_absent (some a) = false

abbrev pub decoded {ℓ} : {A : Type ℓ} → Option A → Result StoreError A
decoded none = err decode_failed
decoded (some a) = ok a

module _ {B : Type 0} (json : Json B) (os : Os) where
  -- writeJSON to the file of a workspace.
  unfoldable pub write_file :
      Disk B → String → B → WriteOutcome → Disk B × Result StoreError (Unit {0})
  unfolding insert_dir
  write_file d id b not_made = (d, err io_failed)
  write_file d id b not_written =
      (record d { root = true; dirs = insert_dir id d.dirs }, err io_failed)
  write_file d id b lost = (
    record d { root = true; dirs = insert_dir id d.dirs; files = put_file d.files id none },
    err io_failed,
  )
  write_file d id b wrote = (
    record d { root = true; dirs = insert_dir id d.dirs; files = put_file d.files id (some b) },
    ok tt,
  )

  unfoldable pub write_index_file :
      Disk B → B → WriteOutcome → Disk B × Result StoreError (Unit {0})
  write_index_file d b not_made = (d, err io_failed)
  write_index_file d b not_written = (record d { root = true }, err io_failed)
  write_index_file d b lost = (record d { root = true; index = none }, err io_failed)
  write_index_file d b wrote = (record d { root = true; index = some b }, ok tt)

  -- readJSON of the file of a workspace.
  unfoldable pub read_file : Bool → Option B → Result StoreError Workspace
  read_file fails none = err not_exist
  read_file true (some b) = err io_failed
  read_file false (some b) = decoded (json.read_workspace b)

  unfoldable pub load_workspace : Disk B → String → Result StoreError Workspace
  unfolding read_file
  load_workspace d id = read_file (os.read_fails id) (d.files id)

  unfoldable pub read_index_file : Bool → Option B → Result StoreError WorkspaceIndex
  read_index_file fails none = ok empty_index
  read_index_file true (some b) = err io_failed
  read_index_file false (some b) = decoded (json.read_index b)

  unfoldable pub load_workspace_index : Disk B → Result StoreError WorkspaceIndex
  unfolding read_index_file
  load_workspace_index d = read_index_file os.read_index_fails d.index

  unfoldable pub save_workspace_index :
      Disk B → WorkspaceIndex → Disk B × Result StoreError (Unit {0})
  unfolding write_index_file
  save_workspace_index d i = write_index_file d (json.write_index i) os.write_index

  -- The loop of ListWorkspaces over the directories.
  abbrev pub add_read :
      String
      → Result StoreError Workspace
      → List Workspace × List Warning
      → List Workspace × List Warning
  add_read id (ok w) (values, warnings) = (w ∷ values, warnings)
  add_read id (err e) (values, warnings) = (values, in_workspace id e ∷ warnings)

  unfoldable pub read_dirs : Disk B → List String → List Workspace × List Warning
  unfolding load_workspace
  read_dirs d [] = ([], [])
  read_dirs d (id ∷ ids) = add_read id (load_workspace d id) (read_dirs d ids)

  abbrev pub sort_listed :
      List Workspace × List Warning
      → Result StoreError WorkspaceIndex
      → List Workspace × List Warning
  sort_listed (values, warnings) (ok i) = (sort_workspaces values i.workspace_ids, warnings)
  sort_listed (values, warnings) (err e) = (sort_workspaces values [], warnings ++ in_index e ∷ [])

  unfoldable pub list_workspaces : Disk B → Result StoreError (List Workspace × List Warning)
  unfolding read_dirs load_workspace_index
  list_workspaces d =
      if not d.root
      then ok ([], [])
      else if os.list_fails
      then err io_failed
      else ok (sort_listed (read_dirs d d.dirs) (load_workspace_index d))

  abbrev pub workspace_ids_of : List Workspace → List String
  workspace_ids_of [] = []
  workspace_ids_of (w ∷ ws) = w.id ∷ workspace_ids_of ws

  abbrev pub save_ids : Disk B → List String → ℕ → Disk B × Result StoreError (Unit {0})
  save_ids d ids now =
      save_workspace_index d (record {
        schema_version = workspace_schema_version;
        workspace_ids = ids;
        updated_at = now;
      })

  -- appendWorkspaceId with an empty index takes all that the directory lists.
  abbrev pub save_listed :
      Disk B
      → ℕ
      → Result StoreError (List Workspace × List Warning)
      → Disk B × Result StoreError (Unit {0})
  save_listed d now (err e) = (d, err e)
  save_listed d now (ok (values, _)) = save_ids d (workspace_ids_of values) now

  abbrev pub append_to : Disk B → String → ℕ → List String → Disk B × Result StoreError (Unit {0})
  append_to d id now [] = save_listed d now (list_workspaces d)
  append_to d id now (i ∷ ids) = save_ids d ((i ∷ ids) ++ id ∷ []) now

  unfoldable pub append_to_index :
      Disk B → String → ℕ → Result StoreError WorkspaceIndex → Disk B × Result StoreError (Unit {0})
  unfolding save_workspace_index list_workspaces contains_text
  append_to_index d id now (err e) = (d, err e)
  append_to_index d id now (ok i) =
      if contains_text i.workspace_ids id then (d, ok tt) else append_to d id now i.workspace_ids

  unfoldable pub append_workspace_id : Disk B → String → ℕ → Disk B × Result StoreError (Unit {0})
  unfolding append_to_index
  append_workspace_id d id now = append_to_index d id now (load_workspace_index d)

  -- The index after the file of a workspace has been written.
  abbrev pub then_append :
      Bool
      → String
      → ℕ
      → Disk B × Result StoreError (Unit {0})
      → Disk B × Result StoreError (Unit {0})
  then_append is_new id now (d, err e) = (d, err e)
  then_append is_new id now (d, ok _) = if is_new then append_workspace_id d id now else (d, ok tt)

  unfoldable pub save_workspace : Disk B → Workspace → Disk B × Result StoreError (Unit {0})
  unfolding write_file append_workspace_id
  save_workspace d w =
      if os.stat_fails w.id
      then (d, err io_failed)
      else then_append (is_absent (d.files w.id)) w.id w.updated_at
          (write_file d w.id (json.write_workspace w) (os.write w.id))

  unfoldable pub find_by_path : List Workspace → String → Result StoreError Workspace
  find_by_path [] path = err not_exist
  find_by_path (w ∷ ws) path =
      let rest = find_by_path ws path in if w.path == path then ok w else rest

  unfoldable pub find_workspace_by_path : Disk B → String → Result StoreError Workspace
  unfolding find_by_path
  find_workspace_by_path d path = do listed ← list_workspaces d; find_by_path listed.0 path

  unfoldable pub remove_from_index :
      Disk B → String → ℕ → Result StoreError WorkspaceIndex → Disk B × Result StoreError (Unit {0})
  unfolding remove_string save_workspace_index contains_text
  remove_from_index d id now (err e) = (d, err e)
  remove_from_index d id now (ok i) =
      if contains_text i.workspace_ids id
      then save_ids d (remove_string i.workspace_ids id) now
      else (d, ok tt)

  unfoldable pub remove_workspace_id : Disk B → String → ℕ → Disk B × Result StoreError (Unit {0})
  unfolding remove_from_index
  remove_workspace_id d id now = remove_from_index d id now (load_workspace_index d)

  unfoldable pub remove_dir : List String → String → List String
  remove_dir [] id = []
  remove_dir (x ∷ xs) id = let rest = remove_dir xs id in if x == id then rest else x ∷ rest

  -- A failing os.RemoveAll is taken to leave the directory.
  unfoldable pub delete_workspace : Disk B → String → ℕ → Disk B × Result StoreError (Unit {0})
  unfolding remove_workspace_id remove_dir
  delete_workspace d id now =
      if os.remove_fails id
      then (d, err io_failed)
      else remove_workspace_id
          (record d { dirs = remove_dir d.dirs id; files = put_file d.files id none }) id now

  abbrev pub bad_order_of : Result OrderError (List String) → Result StoreError (List String)
  bad_order_of (err e) = err (bad_order e)
  bad_order_of (ok ids) = ok ids

  abbrev pub relist :
      Disk B × Result StoreError (Unit {0})
      → Disk B × Result StoreError (List Workspace × List Warning)
  relist (d, err e) = (d, err e)
  relist (d, ok _) = (d, list_workspaces d)

  abbrev pub save_order :
      Disk B
      → ℕ
      → Result StoreError (List String)
      → Disk B × Result StoreError (List Workspace × List Warning)
  save_order d now (err e) = (d, err e)
  save_order d now (ok ids) = relist (save_ids d ids now)

  unfoldable pub order_listed :
      Disk B
      → List String
      → ℕ
      → Result StoreError (List Workspace × List Warning)
      → Disk B × Result StoreError (List Workspace × List Warning)
  unfolding complete_ordered_ids
  order_listed d ids now (err e) = (d, err e)
  order_listed d ids now (ok (values, _)) =
      save_order d now (bad_order_of (complete_ordered_ids ids (workspace_ids_of values)))

  unfoldable pub update_workspace_order :
      Disk B → List String → ℕ → Disk B × Result StoreError (List Workspace × List Warning)
  unfolding order_listed
  update_workspace_order d ids now = order_listed d ids now (list_workspaces d)
