-- ===== src/Terminal/Registry/Requests.antt =====
-- internal/agent/application/task/terminal/registry.go: the checks of requests to the registry, the
-- change that UpdateSession makes to a session, and the errors that the registry returns for those
-- of the store.
use term_bridge.Prelude.{
  ℕ, String, Bool, true, false, not, ◌&&◌, ◌||◌, ◌==◌, if◌then◌else◌, Option, none, some, List, [],
  ◌∷◌, Result, ok, err, ◌>>◌, fail_if,
}
use term_bridge.Prelude.Text.{trim_space}
use term_bridge.Session.State.{terminal, valid_state}
use term_bridge.Session.Record.{Session, CommandRecord, View, ProcessRecord, valid_source}
use term_bridge.Session.Errors.{
  SessionError, workspace_not_found, not_found, update_requires_fields, missing_name,
  command_source_requires_command, missing_command, not_editable, duplicate_session_id,
}
use term_bridge.Session.Recovery.{World, AliveStatus, LoadError, Refreshed, refresh}
use term_bridge.Session.Recovery
use term_bridge.Shortcut.{Shortcut, ShortcutError, validate_shortcut_command}
use term_bridge.Store.Order.{duplicate, unknown}
use term_bridge.Store.Disk.{
  StoreError, not_exist, no_longer_terminal, update_refused, bad_order, Warning,
}
use term_bridge.Terminal.Registry.{Registry, has_runtime}

pub data WorkspaceError : Type 0 where
  cannot_delete_with_running_sessions ids_required duplicate_id : WorkspaceError

-- The kinds of errors that the registry returns; `runtime` wraps an error of the store.
pub data RegistryError : Type 0 where
  session_error : SessionError → RegistryError
  shortcut_error : ShortcutError → RegistryError
  workspace_error : WorkspaceError → RegistryError
  runtime : StoreError → RegistryError

-- The fields that a request may leave out.
pub record UpdateSessionReq : Type 0 where
  pub name : Option String
  pub command : Option String
  pub command_source : Option String
  pub shortcut_id_snapshot : Option String
  pub shortcut_name_snapshot : Option String

abbrev pub is_given {ℓ} : {A : Type ℓ} → Option A → Bool
is_given none = false
is_given (some a) = true

-- The getters of a request give the empty text for a missing field.
abbrev pub text_of : Option String → String
text_of none = ""
text_of (some s) = s

abbrev pub source_given : UpdateSessionReq → Bool
source_given q =
    is_given q.command_source
    || is_given q.shortcut_id_snapshot
    || is_given q.shortcut_name_snapshot

-- errors.Is(err, os.ErrNotExist)
abbrev pub is_not_exist : StoreError → Bool
is_not_exist not_exist = true
is_not_exist (bad_order (unknown id)) = true
is_not_exist _ = false

abbrev pub load_error : StoreError → RegistryError
load_error e = if is_not_exist e then session_error workspace_not_found else runtime e

unfoldable pub find_view : List View → String → Result RegistryError View
find_view [] id = err (session_error not_found)
find_view (v ∷ vs) id = let rest = find_view vs id in if v.session.id == id then ok v else rest

abbrev pub views_of :
    Result StoreError (List View × List Warning) → Result RegistryError (List View)
views_of (err e) = err (load_error e)
views_of (ok (views, _)) = ok views

abbrev pub or_runtime {ℓ} : {A : Type ℓ} → Result StoreError A → Result RegistryError A
or_runtime (err e) = err (runtime e)
or_runtime (ok a) = ok a

abbrev pub or_shortcut : Result ShortcutError (Unit {0}) → Result RegistryError (Unit {0})
or_shortcut (err e) = err (shortcut_error e)
or_shortcut (ok u) = ok u

-- The checks of UpdateSession on the request alone.
unfoldable pub check_request : UpdateSessionReq → Result RegistryError (Unit {0})
check_request q = do
  fail_if (not (is_given q.name) && not (is_given q.command)) (session_error update_requires_fields)
  fail_if (is_given q.name && trim_space (text_of q.name) == "") (session_error missing_name)
  fail_if (not (is_given q.command) && source_given q)
      (session_error command_source_requires_command)
  fail_if (is_given q.command && trim_space (text_of q.command) == "")
      (session_error missing_command)

-- The checks on the state of the session.
unfoldable pub check_editable : UpdateSessionReq → View → Result RegistryError (Unit {0})
unfolding terminal valid_state
check_editable q v =
    if is_given q.command
    then fail_if (not (terminal v.state.state)) (session_error not_editable)
    else fail_if (not (valid_state v.state.state)) (session_error not_editable)

-- The command record that UpdateSession checks against the shortcuts: the source and the id.
abbrev pub asked_command : UpdateSessionReq → CommandRecord → CommandRecord
asked_command q c = record c {
  source = text_of q.command_source;
  shortcut_id_snapshot = text_of q.shortcut_id_snapshot;
}

unfoldable pub check_shortcut :
    Option (List Shortcut) → UpdateSessionReq → CommandRecord → Result RegistryError (Unit {0})
unfolding validate_shortcut_command
check_shortcut shortcuts q c =
    if is_given q.command && source_given q
    then or_shortcut (validate_shortcut_command shortcuts (asked_command q c))
    else ok tt

abbrev pub with_source : UpdateSessionReq → CommandRecord → CommandRecord
with_source q c =
    if source_given q
    then record c {
      source = text_of q.command_source;
      shortcut_id_snapshot = text_of q.shortcut_id_snapshot;
      shortcut_name_snapshot = text_of q.shortcut_name_snapshot;
    }
    else c

abbrev pub with_name : UpdateSessionReq → Session → Session
with_name q s = if is_given q.name then record s { name = trim_space (text_of q.name) } else s

-- The function that UpdateSession hands to the store.
unfoldable pub apply_update : ℕ → UpdateSessionReq → Session → Result StoreError Session
unfolding valid_source
apply_update now q s =
    if not (is_given q.command)
    then ok (record (with_name q s) { updated_at = now })
    else if source_given q && not (valid_source (with_source q s.command))
    then err update_refused
    else ok (record (with_name q s) {
      command = record (with_source q s.command) { command = text_of q.command };
      updated_at = now;
    })

abbrev pub update_error : StoreError → RegistryError
update_error no_longer_terminal = session_error not_editable
update_error e = runtime e

-- The loop of DeleteWorkspace over the sessions.
unfoldable pub any_running : Registry → List View → Bool
unfolding terminal
any_running r [] = false
any_running r (v ∷ vs) =
    has_runtime r v.session.id || not (terminal v.state.state) || any_running r vs

abbrev pub session_order_error : StoreError → RegistryError
session_order_error (bad_order (unknown id)) = session_error not_found
session_order_error (bad_order (duplicate id)) = session_error duplicate_session_id
session_order_error not_exist = session_error workspace_not_found
session_order_error e = runtime e

abbrev pub workspace_order_error : StoreError → RegistryError
workspace_order_error (bad_order (unknown id)) = session_error workspace_not_found
workspace_order_error (bad_order (duplicate id)) = workspace_error duplicate_id
workspace_order_error not_exist = session_error workspace_not_found
workspace_order_error e = runtime e

-- The error of the store as the recovery of a session tells it.
abbrev pub recovery_error : StoreError → LoadError
recovery_error not_exist = Recovery.not_exist
recovery_error e = Recovery.load_failed

abbrev pub loaded_process : Result StoreError ProcessRecord → Result LoadError ProcessRecord
loaded_process (err e) = err (recovery_error e)
loaded_process (ok p) = ok p

abbrev pub succeeded {ℓ} : {E : Type 0} {A : Type ℓ} → Result E A → Bool
succeeded (err e) = false
succeeded (ok a) = true
