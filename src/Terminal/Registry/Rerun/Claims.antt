-- ===== src/Terminal/Registry/Rerun/Claims.antt =====
-- What RerunSession leaves of the registry, on every branch.
use term_bridge.Prelude.{
  String, true, false, not, ◌||◌, ◌==◌, eq_iff, ◌≡◌, refl, sym, subst, if_both, Result, ok, err,
  arith, ◌⊎◌, inl, inr, Bool-cases,
}
use term_bridge.Prelude.Text.{trim_space}
use term_bridge.Process.Size.{TerminalSize, or_default}
use term_bridge.Protocol.Terminal.{validate_size}
use term_bridge.Session.State.{terminal}
use term_bridge.Session.Record.{View}
use term_bridge.Session.Errors.{SessionError, already_running, invalid_size}
use term_bridge.Terminal.Registry.{
  Registry, Launch, claim_session_start, release_session_start, add_runtime, set_key,
  start_claimed_session_runtime,
}
use term_bridge.Terminal.Registry.Starts.{
  IsStart, nothing_left, running, start_claimed_session_runtime-IsStart,
}
use term_bridge.Terminal.Registry.Rerun.{
  RerunWorld, RerunError, session_error, start_error, archive_failed, begin_failed, Rerun, reject,
  save_session_failed, rerun_started, rerun_claimed, is_refused, released_run, rerun_claim,
  rerun_size, rerun_view, rerun_loaded, rerun_session,
}

-- The registry has the same runtimes and launches.
abbrev pub IsSame : Registry → Registry → Type 0
IsSame r s = (id : String) → (s.runtimes id ≡ r.runtimes id) × (s.launching id ≡ r.launching id)

-- Either an error, and the registry as it was; or a runtime more, of a session that had neither a
-- runtime nor a launch, and the same launches.
pub data IsRerun (r : Registry) (x : Rerun) : Type 0 where
  rejected : (e : RerunError) → x.result ≡ err e → IsSame r x.registry → IsRerun r x
  launched :
      (id : String)
      → x.result ≡ ok tt
      → (r.runtimes id || r.launching id) ≡ false
      → IsSame (add_runtime r id) x.registry
      → IsRerun r x

pub claim-cases :
    (r : Registry) (id : String)
    → (claim_session_start r id ≡ (r, err already_running))
      ⊎ ((claim_session_start r id ≡ (record r { launching = set_key r.launching id true }, ok tt))
          × ((r.runtimes id || r.launching id) ≡ false))
unfolding claim_session_start
claim-cases r id = elim (Bool-cases (r.runtimes id || r.launching id)) [
  | inl t ↦ inl (rw t)
  | inr f ↦ inr (rw f, f)
]

pub claim_and_release :
    (r : Registry) (id : String)
    → (r.runtimes id || r.launching id) ≡ false
    → IsSame r (release_session_start (record r { launching = set_key r.launching id true }) id)
unfolding release_session_start set_key
claim_and_release r id f s = ground (arith, eq_iff s id)

pub add_and_release :
    (r : Registry) (id : String)
    → (r.runtimes id || r.launching id) ≡ false
    → IsSame (add_runtime r id) (
        release_session_start
          (add_runtime (record r { launching = set_key r.launching id true }) id)
          id)
unfolding release_session_start set_key add_runtime
add_and_release r id f s = ground (arith, eq_iff s id)

started-IsRerun :
    (r : Registry) (w : RerunWorld) (id : String) (l : Launch)
    → (r.runtimes id || r.launching id) ≡ false
    → IsStart (record r { launching = set_key r.launching id true }) id l
    → IsRerun r (released_run id (rerun_started w l l.result))
unfolding rerun_started save_session_failed
started-IsRerun r w id l f (nothing_left e q) =
    subst (λ m. IsRerun r (released_run id (rerun_started w m m.result))) (sym q)
      (rejected (start_error e) refl (claim_and_release r id f))
started-IsRerun r w id l f (running s ok' run sv reg p h) =
    subst (λ y. IsRerun r (released_run id (rerun_started w l y))) (sym ok')
      (launched id refl f (
        subst (λ g. IsSame (add_runtime r id) (release_session_start g id)) (sym reg)
          (add_and_release r id f)))

pub same : (r : Registry) → IsSame r r
same r id = (refl, refl)

failed_run :
    (r : Registry) (w : RerunWorld) (id reason : String) (e : RerunError)
    → (r.runtimes id || r.launching id) ≡ false
    → IsRerun r (
        released_run id
          (save_session_failed (record r { launching = set_key r.launching id true }) w reason e))
unfolding save_session_failed
failed_run r w id reason e f = rejected e refl (claim_and_release r id f)

claimed-IsRerun :
    (r : Registry) (w : RerunWorld) (v : View) (size : TerminalSize)
    → (r.runtimes v.session.id || r.launching v.session.id) ≡ false
    → IsRerun r (
        released_run v.session.id
          (rerun_claimed (record r { launching = set_key r.launching v.session.id true }) w v size))
unfolding rerun_claimed
claimed-IsRerun r w v size f =
    let claimed : Registry = record r { launching = set_key r.launching v.session.id true } in
    let l =
      start_claimed_session_runtime claimed w.start v.session v.session.command.command size in
    let P : Rerun → Type 0 = λ x. IsRerun r (released_run v.session.id x) in
    if_both P (not w.archive_ok) _ _
      (λ _. failed_run r w v.session.id "archive_history_failed" archive_failed f)
      (λ _.
        if_both P (is_refused w.begin_ok) _ _
          (λ _. failed_run r w v.session.id "begin_session_run_failed" begin_failed f)
          (λ _. started-IsRerun r w v.session.id l f (
            start_claimed_session_runtime-IsStart claimed w.start v.session
              v.session.command.command size)))

claim-IsRerun :
    (r : Registry) (w : RerunWorld) (v : View) (size : TerminalSize)
    → IsRerun r (rerun_claim w v size (claim_session_start r v.session.id))
unfolding rerun_claim
claim-IsRerun r w v size = elim (claim-cases r v.session.id) [
  | inl e ↦
      subst (λ c. IsRerun r (rerun_claim w v size c)) (sym e)
        (rejected (session_error already_running) refl (same r))
  | inr (e, f) ↦
      subst (λ c. IsRerun r (rerun_claim w v size c)) (sym e) (claimed-IsRerun r w v size f)
]

size-IsRerun :
    (r : Registry) (w : RerunWorld) (v : View) (size : TerminalSize)
    → IsRerun r (rerun_size r w v size)
unfolding rerun_size
size-IsRerun r w v size =
    elim (validate_size size.cols size.rows)
      as (λ c. IsRerun r (elim c [
        | err _ ↦ reject r (session_error invalid_size)
        | ok _ ↦ rerun_claim w v size (claim_session_start r v.session.id)
      ])) [
        | err _ ↦ rejected (session_error invalid_size) refl (same r)
        | ok _ ↦ claim-IsRerun r w v size
      ]

view-IsRerun :
    (r : Registry) (w : RerunWorld) (size : TerminalSize) (v : View)
    → IsRerun r (rerun_view r w size v)
unfolding rerun_view save_session_failed
view-IsRerun r w size v =
    let P : Rerun → Type 0 = λ x. IsRerun r x in
    if_both P (not (terminal v.state.state)) _ _ (λ _. rejected _ refl (same r))
      (λ _.
        if_both P (trim_space v.session.command.command == "") _ _ (λ _. rejected _ refl (same r))
          (λ _.
            if_both P (trim_space v.session.launch_cwd == "" || not w.is_dir) _ _
              (λ _. rejected _ refl (same r)) (λ _. size-IsRerun r w v (or_default size))))

loaded-IsRerun :
    (r : Registry) (w : RerunWorld) (size : TerminalSize) (v : Result SessionError View)
    → IsRerun r (rerun_loaded r w size v)
unfolding rerun_loaded
loaded-IsRerun r w size (err e) = rejected (session_error e) refl (same r)
loaded-IsRerun r w size (ok v) = view-IsRerun r w size v

-- On every branch RerunSession gives back the claim that it took. If it succeeds it has added the
-- runtime of a session that had neither a runtime nor a launch, and changed no other; if it fails
-- the registry has the runtimes and launches that it had.
pub rerun_session-IsRerun :
    (r : Registry) (w : RerunWorld) (size : TerminalSize) → IsRerun r (rerun_session r w size)
unfolding rerun_session
rerun_session-IsRerun r w size = loaded-IsRerun r w size w.view
