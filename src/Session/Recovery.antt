-- ===== src/Session/Recovery.antt =====
-- internal/agent/model/task/session/recovery.go: what becomes of a session that is stored as
-- running when the agent has no runtime for it.
pub mod Refresh
use term_bridge.Prelude.{
  ℕ, String, Bool, true, false, Option, none, some, ◌==◌, if◌then◌else◌, Result, ok, err,
}
use term_bridge.Session.State.{StateRecord, schema_version, state_stopped, state_failed, terminal}
use term_bridge.Session.Record.{View, ProcessRecord}

pub data AliveStatus : Type 0 where
  alive_missing alive_matched alive_unverified : AliveStatus

pub data LoadError : Type 0 where
  not_exist load_failed : LoadError

pub data RecoverError : Type 0 where
  cannot_load cannot_save : RecoverError

-- The answers of the store, the checker of processes and the clock to one call of Refresh.
pub record World : Type 0 where
  pub process : Result LoadError ProcessRecord
  pub check : ProcessRecord → AliveStatus
  pub has_exit : Bool
  pub save_ok : Bool
  pub now : ℕ

-- What Refresh returns, and the state that it has given to the store's SaveState.
pub record Refreshed : Type 0 where
  pub view : View
  pub saved : Option StateRecord
  pub result : Result RecoverError (Unit {0})

unfoldable pub mark_state : World → View → String → String → Refreshed
mark_state w view state reason =
    let s : StateRecord = record {
      schema_version = schema_version;
      state = state;
      reason = reason;
      updated_at = w.now;
    } in
    record {
      view = record view { state = s };
      saved = some s;
      result = if w.save_ok then ok tt else err cannot_save;
    }

unfoldable pub mark_failed : World → View → String → Refreshed
unfolding mark_state
mark_failed w view reason = mark_state w view state_failed reason

abbrev pub unchanged : View → Result RecoverError (Unit {0}) → Refreshed
unchanged view result = record { view = view; saved = none; result = result }

-- The switch on the status of the process.
unfoldable pub refresh_alive : World → View → AliveStatus → Refreshed
unfolding mark_state mark_failed
refresh_alive w view alive_matched = unchanged view (ok tt)
refresh_alive w view alive_missing =
    if w.has_exit
    then mark_state w view state_stopped "recovered_exit_record"
    else mark_failed w view "stale_process_missing"
refresh_alive w view alive_unverified = mark_failed w view "stale_process_unverified"

unfoldable pub refresh_loaded : World → View → Result LoadError ProcessRecord → Refreshed
unfolding refresh_alive
refresh_loaded w view (err not_exist) = mark_failed w view "stale_process_missing"
refresh_loaded w view (err load_failed) = unchanged view (err cannot_load)
refresh_loaded w view (ok process) = refresh_alive w view (w.check process)

unfoldable pub refresh : World → View → Refreshed
unfolding refresh_loaded terminal
refresh w view =
    let later = refresh_loaded w view w.process in
    if terminal view.state.state then unchanged view (ok tt) else later
