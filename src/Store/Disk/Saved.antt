-- ===== src/Store/Disk/Saved.antt =====
-- What a saved workspace leaves on the disk, whatever the operating system answers.
use text.Mathlib.TextPositions.{eq_refl}
use term_bridge.Prelude.{
  ℕ, String, Bool, true, false, ◌==◌, ◌≡◌, refl, ap, ◌∙◌, if_first, if_both, Option, none, some,
  List, [], ◌∷◌, Result, ok, err, arith,
}
use term_bridge.Prelude.Text.{contains_text}
use term_bridge.Store.Node.{Workspace, WorkspaceIndex}
use term_bridge.Store.Disk.{
  Json, Os, Disk, StoreError, io_failed, WriteOutcome, not_made, not_written, lost, wrote, Warning,
  put_file, is_absent, write_file, write_index_file, read_file, decoded, load_workspace,
  load_workspace_index, save_workspace_index, list_workspaces, save_ids, save_listed, append_to,
  append_to_index, append_workspace_id, then_append, save_workspace,
}

-- Reading gives back what was written.
pub record IsFaithful {B : Type 0} (json : Json B) : Type 0 where
  pub workspaces : (w : Workspace) → json.read_workspace (json.write_workspace w) ≡ some w
  pub indices : (i : WorkspaceIndex) → json.read_index (json.write_index i) ≡ some i

abbrev pub read_back : {B : Type 0} → Json B → Option B → Option Workspace
read_back json none = none
read_back json (some b) = json.read_workspace b

-- The workspace that the file of an id holds, if it can be decoded.
abbrev pub workspace_at : {B : Type 0} → Json B → Disk B → String → Option Workspace
workspace_at json d id = read_back json (d.files id)

decoded_reads : (o : Option Workspace) (w : Workspace) → decoded o ≡ ok w → o ≡ some w
decoded_reads none w h = ground (arith, h)
decoded_reads (some v) w h = ground (arith, h)

-- The three ways in which a save ends: the file is written, whether or not the index is; or it
-- fails and the file is as before; or it fails and the file is gone.
pub data IsSaved {B : Type 0} (json : Json B) (d : Disk B) (w : Workspace)
    (x : Disk B × Result StoreError (Unit {0})) : Type 0 where
  stored : x.0.files ≡ put_file d.files w.id (some (json.write_workspace w)) → IsSaved json d w x
  kept : x.1 ≡ err io_failed → x.0.files ≡ d.files → IsSaved json d w x
  gone : x.1 ≡ err io_failed → x.0.files ≡ put_file d.files w.id none → IsSaved json d w x

module _ {B : Type 0} (json : Json B) (os : Os) where
  write_index_file-files :
      (d : Disk B) (b : B) (o : WriteOutcome) → (write_index_file json os d b o).0.files ≡ d.files
  unfolding write_index_file
  write_index_file-files d b not_made = refl
  write_index_file-files d b not_written = refl
  write_index_file-files d b lost = refl
  write_index_file-files d b wrote = refl

  save_ids-files :
      (d : Disk B) (ids : List String) (now : ℕ) → (save_ids json os d ids now).0.files ≡ d.files
  unfolding save_workspace_index
  save_ids-files d ids now = write_index_file-files d _ os.write_index

  save_listed-files :
      (d : Disk B) (now : ℕ) (l : Result StoreError (List Workspace × List Warning))
      → (save_listed json os d now l).0.files ≡ d.files
  save_listed-files d now (err e) = refl
  save_listed-files d now (ok l) = save_ids-files d _ now

  append_to-files :
      (d : Disk B) (id : String) (now : ℕ) (ids : List String)
      → (append_to json os d id now ids).0.files ≡ d.files
  append_to-files d id now [] = save_listed-files d now (list_workspaces json os d)
  append_to-files d id now (i ∷ ids) = save_ids-files d _ now

  append_to_index-files :
      (d : Disk B) (id : String) (now : ℕ) (i : Result StoreError WorkspaceIndex)
      → (append_to_index json os d id now i).0.files ≡ d.files
  unfolding append_to_index
  append_to_index-files d id now (err e) = refl
  append_to_index-files d id now (ok i) =
      if_first (λ (x : Disk B). x.files ≡ d.files) (contains_text i.workspace_ids id) _ _
        (λ _. refl) (λ _. append_to-files d id now i.workspace_ids)

  append_workspace_id-files :
      (d : Disk B) (id : String) (now : ℕ)
      → (append_workspace_id json os d id now).0.files ≡ d.files
  unfolding append_workspace_id
  append_workspace_id-files d id now =
      append_to_index-files d id now (load_workspace_index json os d)

  then_append-files :
      (b : Bool) (id : String) (now : ℕ) (d : Disk B)
      → (then_append json os b id now (d, ok tt)).0.files ≡ d.files
  then_append-files b id now d =
      if_first (λ (x : Disk B). x.files ≡ d.files) b _ _ (λ _. append_workspace_id-files d id now)
        (λ _. refl)

  write_file-IsSaved :
      (d : Disk B) (w : Workspace) (is_new : Bool) (o : WriteOutcome)
      → IsSaved json d w (
          then_append json os is_new w.id w.updated_at
            (write_file json os d w.id (json.write_workspace w) o))
  unfolding write_file
  write_file-IsSaved d w is_new not_made = kept refl refl
  write_file-IsSaved d w is_new not_written = kept refl refl
  write_file-IsSaved d w is_new lost = gone refl refl
  write_file-IsSaved d w is_new wrote = stored (then_append-files is_new w.id w.updated_at _)

  pub save_workspace-IsSaved :
      (d : Disk B) (w : Workspace) → IsSaved json d w (save_workspace json os d w)
  unfolding save_workspace
  save_workspace-IsSaved d w =
      if_both (λ (x : Disk B × Result StoreError (Unit {0})). IsSaved json d w x)
        (os.stat_fails w.id) _ _ (λ _. kept refl refl)
        (λ _. write_file-IsSaved d w (is_absent (d.files w.id)) (os.write w.id))

  put_file-same :
      (files : String → Option B) (id : String) (x : Option B) → put_file files id x id ≡ x
  put_file-same files id x = rw (eq_refl id)

  -- After a save that succeeds, the disk holds the workspace and no other has changed.
  pub save_workspace-reads :
      IsFaithful json
      → (d : Disk B) (w : Workspace) → (save_workspace json os d w).1 ≡ ok tt
      → (workspace_at json (save_workspace json os d w).0 w.id ≡ some w)
        × ((v : String)
            → (v == w.id) ≡ false
            → workspace_at json (save_workspace json os d w).0 v ≡ workspace_at json d v)
  save_workspace-reads f d w h = elim (save_workspace-IsSaved d w) [
    | stored e ↦ (
      ap (λ files. read_back json (files w.id)) e
          ∙ ap (read_back json) (put_file-same d.files w.id _)
          ∙ f.workspaces w,
      λ v n. ap (λ files. read_back json (files v)) e ∙ rw n,
    )
    | kept e _ ↦ ground (arith, e, h)
    | gone e _ ↦ ground (arith, e, h)
  ]

  read_file-reads :
      (fails : Bool) (b : Option B) (w : Workspace)
      → read_file json os fails b ≡ ok w
      → read_back json b ≡ some w
  unfolding read_file
  read_file-reads fails none w h = ground (arith, h)
  read_file-reads true (some b) w h = ground (arith, h)
  read_file-reads false (some b) w h = decoded_reads (json.read_workspace b) w h

  -- A file that the operating system can read is read as it is decoded.
  pub load_workspace-reads :
      (d : Disk B) (id : String) (w : Workspace)
      → load_workspace json os d id ≡ ok w
      → workspace_at json d id ≡ some w
  unfolding load_workspace
  load_workspace-reads d id w h = read_file-reads (os.read_fails id) (d.files id) w h
