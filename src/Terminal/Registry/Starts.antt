-- ===== src/Terminal/Registry/Starts.antt =====
-- What one start does on each of its branches, and what a rerun leaves of the claim.
use term_bridge.Prelude.{ℕ, String, true, false, Option, none, some, ◌≡◌, refl, Result, ok, err}
use term_bridge.Process.Size.{TerminalSize, ProcessSpec, SpecError, new_spec}
use term_bridge.Session.State.{StateRecord, state_running}
use term_bridge.Session.Record.{Session, ProcessRecord}
use term_bridge.Terminal.Registry.{
  Registry, StartWorld, StartError, Launch, PtyStart, start_failed, started, refused, add_runtime,
  start_save, start_pty, start_spec, start_history, start_claimed_session_runtime, running_record,
  pty_usage, pty_not_started, spec_not_built, history_not_created, process_not_saved,
  state_not_saved, fill_record,
}

-- A start is refused, and then leaves nothing behind; or it has saved the state "running" and
-- registered the runtime with its PTY and its history open.
pub data IsStart (r : Registry) (id : String) (l : Launch) : Type 0 where
  nothing_left : (e : StartError) → l ≡ refused r e → IsStart r id l
  running :
      (s : StateRecord)
      → l.result ≡ ok tt
      → s.state ≡ state_running
      → l.saved_state ≡ some s
      → l.registry ≡ add_runtime r id
      → l.pty_open ≡ true
      → l.history_open ≡ true
      → IsStart r id l

save-IsStart :
    (r : Registry) (id : String) (p : Option ProcessRecord) (at_time : ℕ) (e : Option String)
    → IsStart r id (start_save r id p (running_record at_time) e)
unfolding start_save
save-IsStart r id (some p) t (some e) = nothing_left (process_not_saved e) refl
save-IsStart r id none t (some e) = nothing_left (state_not_saved e) refl
save-IsStart r id (some p) t none = running (running_record t) refl refl refl refl refl refl
save-IsStart r id none t none = running (running_record t) refl refl refl refl refl refl

pty-IsStart :
    (r : Registry) (w : StartWorld) (id : String) (spec : ProcessSpec) (p : PtyStart)
    → IsStart r id (start_pty r w id spec p)
unfolding start_pty
pty-IsStart r w id spec (start_failed true e) = nothing_left (pty_usage e) refl
pty-IsStart r w id spec (start_failed false e) = nothing_left (pty_not_started e) refl
pty-IsStart r w id spec (started none) = save-IsStart r id none w.now w.save_error
pty-IsStart r w id spec (started (some p)) =
    let filled = fill_record w spec p in
    save-IsStart r id (some filled) filled.started_at w.save_error

spec-IsStart :
    (r : Registry) (w : StartWorld) (id : String) (spec : Result SpecError ProcessSpec)
    → IsStart r id (start_spec r w id spec)
unfolding start_spec
spec-IsStart r w id (err e) = nothing_left spec_not_built refl
spec-IsStart r w id (ok spec) = pty-IsStart r w id spec w.pty

history-IsStart :
    (r : Registry) (w : StartWorld) (s : Session) (command : String) (size : TerminalSize)
    (e : Option String)
    → IsStart r s.id (start_history r w s command size e)
unfolding start_history
history-IsStart r w s command size (some e) = nothing_left (history_not_created e) refl
history-IsStart r w s command size none =
    spec-IsStart r w s.id (new_spec w.sanitized_env s.launch_cwd command size)

-- Whatever the file system, the PTY manager and the store answer, a start of a session either fails
-- and leaves the registry as it was, nothing saved, and neither PTY nor history open; or it
-- succeeds with the state "running" saved, the runtime registered, and both open.
pub start_claimed_session_runtime-IsStart :
    (r : Registry) (w : StartWorld) (s : Session) (command : String) (size : TerminalSize)
    → IsStart r s.id (start_claimed_session_runtime r w s command size)
unfolding start_claimed_session_runtime
start_claimed_session_runtime-IsStart r w s command size =
    history-IsStart r w s command size w.history_error
