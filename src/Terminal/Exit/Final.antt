-- ===== src/Terminal/Exit/Final.antt =====
-- What the end of a session is saved and announced as.
use term_bridge.Prelude.{
  ℕ, zero, suc, String, Bool, true, false, Option, none, some, if◌then◌else◌, ℤ, pos, negsuc, ◌≡◌,
  refl, subst, ◌↔◌, ok, arith, Bool-cases, ◌⊎◌, inl, inr, ◌==◌,
}
use term_bridge.Protocol.Terminal.{validate_server}
use term_bridge.Process.Exit.{
  StopMode, stop_none, stop_interrupt, stop_close, stop_kill, WaitError, interpret_exit,
  interpret_error, interpret_wait_error,
}
use term_bridge.Session.State.{
  state_running, state_stopped, state_failed, can_transition, valid_state,
}
use term_bridge.Terminal.Exit.{
  WaitResult, exit_of, is_failed, final_state, state_record, exited_message,
}

-- An error of the wait that neither ended the process from outside nor reports its exit code.
pub record IsUnknownFailure (w : WaitResult) : Type 0 where
  pub cause : WaitError
  pub reported : w.wait_error ≡ some cause
  pub not_closed : cause.is_windows_closed ≡ false
  pub no_exit_code : cause.is_exit_error ≡ false

failed_only :
    (code : ℤ) (closed exited : Bool) (text : String) (mode : StopMode)
    → is_failed
        (record {
          exit_code = code;
          wait_error = some (record { is_windows_closed = closed; is_exit_error = exited });
          error_text = text;
        })
        mode
      ≡ true
    → (mode ≡ stop_none) × (code ≡ pos 0) × (closed ≡ false) × (exited ≡ false)
unfolding is_failed exit_of interpret_exit interpret_error interpret_wait_error
failed_only (pos zero) false false text stop_none h = (refl, refl, refl, refl)
failed_only (pos (suc n)) closed exited text stop_none h = ground (arith, h)
failed_only (pos zero) false true text stop_none h = ground (arith, h)
failed_only (pos zero) true exited text stop_none h = ground (arith, h)
failed_only (negsuc n) closed exited text stop_none h = ground (arith, h)
failed_only code closed exited text stop_interrupt h = ground (arith, h)
failed_only code closed exited text stop_close h = ground (arith, h)
failed_only code closed exited text stop_kill h = ground (arith, h)

failed_parts :
    (code : ℤ) (e : Option WaitError) (text : String) (mode : StopMode)
    → is_failed (record { exit_code = code; wait_error = e; error_text = text }) mode ≡ true
    → (mode ≡ stop_none)
      × (code ≡ pos 0)
      × IsUnknownFailure (record { exit_code = code; wait_error = e; error_text = text })
unfolding is_failed
failed_parts code none text mode h = ground (arith, h)
failed_parts code (some e) text mode h =
    let (m, c, w, x) = failed_only code e.is_windows_closed e.is_exit_error text mode h in
    (m, c, record { cause = e; reported = refl; not_closed = w; no_exit_code = x })

picked : (b : Bool) → (if b then state_failed else state_stopped) ≡ state_failed → b ≡ true
picked true h = refl
picked false h = ground (arith, subst (λ s. (s == state_failed) ≡ false) h refl)

failed-is_failed :
    (w : WaitResult) (mode : StopMode) → final_state w mode ≡ state_failed → is_failed w mode ≡ true
unfolding final_state
failed-is_failed w mode h = picked (is_failed w mode) h

-- waitLoop saves the state "failed" exactly for a process that nobody stopped, that left exit code
-- 0, and whose wait failed with an error that is neither an exit code nor the Windows status of a
-- closed console; it saves "stopped" for any other.
pub final_failed_iff :
    (w : WaitResult) (mode : StopMode)
    → (final_state w mode ≡ state_failed)
      ↔ ((mode ≡ stop_none) × (w.exit_code ≡ pos 0) × IsUnknownFailure w)
unfolding final_state is_failed exit_of interpret_exit interpret_error interpret_wait_error
final_failed_iff w mode = (
  λ h. failed_parts w.exit_code w.wait_error w.error_text mode (failed-is_failed w mode h),
  λ (m, c, f). rw (m, c, f.reported, f.not_closed, f.no_exit_code),
)

final_cases :
    (w : WaitResult) (mode : StopMode)
    → (final_state w mode ≡ state_stopped) ⊎ (final_state w mode ≡ state_failed)
unfolding final_state
final_cases w mode = elim (Bool-cases (is_failed w mode)) [
  | inl t ↦ inr (rw t)
  | inr f ↦ inl (rw f)
]

-- The state that waitLoop saves is one to which a running session may go, and the message that
-- tells the clients of it passes the check of EncodeServer.
pub exit_announced :
    (w : WaitResult) (mode : StopMode) (ended_at : ℕ)
    → (can_transition state_running (state_record w mode ended_at).state ≡ true)
      × (validate_server (some (exited_message w mode)) ≡ ok tt)
unfolding can_transition valid_state state_record validate_server exited_message
exit_announced w mode ended_at = elim (final_cases w mode) [
  | inl e ↦ (rw e, rw e)
  | inr e ↦ (rw e, rw e)
]
