-- ===== src/Session/Recovery/Refresh.antt =====
-- What Refresh guarantees of a session.
use term_bridge.Prelude.{
  String, Bool, true, false, none, some, ◌≡◌, refl, sym, ap, subst, ◌↔◌, ok, err, Result, arith,
  if_both, if◌then◌else◌,
}
use term_bridge.Session.State.{StateRecord, terminal, state_running, state_stopped, state_failed}
use term_bridge.Session.Record.{View, ProcessRecord}
use term_bridge.Session.Recovery.{
  World, Refreshed, LoadError, not_exist, load_failed, AliveStatus, alive_missing, alive_matched,
  alive_unverified, mark_state, mark_failed, refresh, refresh_alive, refresh_loaded, unchanged,
}

-- A refresh either saves nothing and keeps the view, or saves a terminal state and shows it in the
-- view, of which it keeps the rest.
pub data Outcome (view : View) (r : Refreshed) : Type 0 where
  kept : r.saved ≡ none → r.view ≡ view → Outcome view r
  ended :
      (s : StateRecord)
      → r.saved ≡ some s
      → terminal s.state ≡ true
      → r.view ≡ record view { state = s }
      → Outcome view r

marked :
    (w : World) (view : View) (state reason : String)
    → terminal state ≡ true
    → Outcome view (mark_state w view state reason)
unfolding mark_state
marked w view state reason h = ended _ refl h refl

alive-Outcome : (w : World) (view : View) (a : AliveStatus) → Outcome view (refresh_alive w view a)
unfolding refresh_alive mark_failed terminal
alive-Outcome w view alive_matched = kept refl refl
alive-Outcome w view alive_missing =
    if_both (λ r. Outcome view r) w.has_exit _ _
      (λ h. marked w view state_stopped "recovered_exit_record" refl)
      (λ h. marked w view state_failed "stale_process_missing" refl)
alive-Outcome w view alive_unverified = marked w view state_failed "stale_process_unverified" refl

loaded-Outcome :
    (w : World) (view : View) (p : Result LoadError ProcessRecord)
    → Outcome view (refresh_loaded w view p)
unfolding refresh_loaded mark_failed terminal
loaded-Outcome w view (err not_exist) = marked w view state_failed "stale_process_missing" refl
loaded-Outcome w view (err load_failed) = kept refl refl
loaded-Outcome w view (ok p) = alive-Outcome w view (w.check p)

pub refresh-Outcome : (w : World) (view : View) → Outcome view (refresh w view)
unfolding refresh
refresh-Outcome w view =
    if_both (λ r. Outcome view r) (terminal view.state.state) _ _ (λ h. kept refl refl)
      (λ h. loaded-Outcome w view w.process)

-- What the store and the checker say of a session that lives on, as far as they can tell.
pub data LivesOn (w : World) : Type 0 where
  matched : (p : ProcessRecord) → w.process ≡ ok p → w.check p ≡ alive_matched → LivesOn w
  unknown : w.process ≡ err load_failed → LivesOn w

pub terminal-refresh :
    (w : World) (view : View)
    → terminal view.state.state ≡ true
    → refresh w view ≡ unchanged view (ok tt)
unfolding refresh
terminal-refresh w view t = rw t

is_ended :
    (r : Refreshed) → terminal r.view.state.state ≡ true → terminal r.view.state.state ≡ false → ⊥
is_ended r t f = ground (arith, t, f)

alive_running :
    (w : World) (view : View) (a : AliveStatus)
    → terminal (refresh_alive w view a).view.state.state ≡ false
    → a ≡ alive_matched
unfolding refresh_alive mark_failed mark_state terminal
alive_running w view alive_matched h = refl
alive_running w view alive_missing h = absurd (
    is_ended (refresh_alive w view alive_missing)
      (if_both (λ (r : Refreshed). terminal r.view.state.state ≡ true) w.has_exit _ _ (λ _. refl)
        (λ _. refl))
      h)
alive_running w view alive_unverified h = ground (arith, h)

loaded_running :
    (w : World) (view : View) (p : Result LoadError ProcessRecord)
    → w.process ≡ p
    → terminal (refresh_loaded w view p).view.state.state ≡ false
    → LivesOn w
unfolding refresh_loaded mark_failed mark_state terminal
loaded_running w view (err not_exist) e h = ground (arith, h)
loaded_running w view (err load_failed) e h = unknown e
loaded_running w view (ok p) e h = matched p e (alive_running w view (w.check p) h)

later_of {ℓ} : {A : Type ℓ} (x y : A) (b : Bool) → b ≡ false → (if b then x else y) ≡ y
later_of x y b e = rw e

refresh-running :
    (w : World) (view : View)
    → view.state.state ≡ state_running
    → refresh w view ≡ refresh_loaded w view w.process
unfolding refresh terminal
refresh-running w view e = later_of _ _ (terminal view.state.state) (rw e)

lives_on :
    (w : World) (view : View)
    → view.state.state ≡ state_running
    → LivesOn w
    → (refresh_loaded w view w.process).view.state.state ≡ state_running
unfolding refresh_loaded refresh_alive
lives_on w view e (matched p q m) = rw (q, m, e)
lives_on w view e (unknown q) = rw (q, e)

-- A session that is stored as running is still running after Refresh exactly when its process
-- record cannot be read, for another reason than that it is missing, or names a process that the
-- checker matches.
pub refresh_running_iff :
    (w : World) (view : View)
    → view.state.state ≡ state_running
    → ((refresh w view).view.state.state ≡ state_running) ↔ LivesOn w
unfolding terminal refresh_loaded refresh_alive
refresh_running_iff w view e = (
  λ h.
      loaded_running w view w.process refl (
        subst (λ r. terminal r.view.state.state ≡ false) (refresh-running w view e)
          (ap terminal h)),
  λ l.
      subst (λ r. r.view.state.state ≡ state_running) (sym (refresh-running w view e))
        (lives_on w view e l),
)
