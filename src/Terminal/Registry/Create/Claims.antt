-- ===== src/Terminal/Registry/Create/Claims.antt =====
-- What CreateSession leaves of the registry, and which session it makes, over any store.
use term_bridge.Prelude.{
  String, Bool, true, false, ◌||◌, ◌==◌, ◌≡◌, refl, sym, ap, subst, if◌then◌else◌, Option, none,
  some, List, [], ◌∷◌, Result, ok, err, bind-ok, fail_if, arith, inl, inr, Bool-cases,
}
use term_bridge.Prelude.Text.{trim_space}
use term_bridge.Process.Size.{TerminalSize}
use term_bridge.Session.State.{StateRecord}
use term_bridge.Session.Record.{Session, CommandRecord, valid_source}
use term_bridge.Session.Errors.{missing_name}
use term_bridge.Store.Node.{Workspace}
use term_bridge.Store.Disk.{StoreError}
use term_bridge.Terminal.Registry.{
  Registry, Launch, claim_session_start, release_session_start, add_runtime, set_key,
  start_claimed_session_runtime,
}
use term_bridge.Terminal.Registry.Starts.{
  IsStart, nothing_left, running, start_claimed_session_runtime-IsStart,
}
use term_bridge.Terminal.Registry.Rerun.Claims.{
  IsSame, claim-cases, claim_and_release, add_and_release, same,
}
use term_bridge.Terminal.Registry.Store.{RuntimeStore}
use term_bridge.Terminal.Registry.Requests.{session_error}
use term_bridge.Terminal.Registry.Create.{
  CreateSessionReq, CreateWorld, CreateConfig, CreateError, rejected, no_id, not_started,
  requested_size, check_create, only_command, dir_or, checked_size, resolve_session_cwd,
  create_command, check_command, new_session,
}
use term_bridge.Terminal.Registry.Create.Steps.{
  Created, save_started, refused_save, saved_launch, launch, launched_session, claimed_session,
  start_created, create_saved, create_checked, create_in, create_with, create_session,
  saved_session, workspace_for_create_session,
}

-- The session has the trimmed name and the one command of the request, neither of which is blank, and
-- its source is valid.
abbrev pub IsAsked : CreateSessionReq → Session → Type 0
IsAsked q s =
    (s.name ≡ trim_space q.name)
    × ((s.name == "") ≡ false)
    × (q.command ≡ s.command.command ∷ [])
    × ((trim_space s.command.command == "") ≡ false)
    × (valid_source s.command ≡ true)

-- Either an error, and the registry as it was; or one runtime more, of a session as it was asked for
-- that had neither a runtime nor a launch.
pub data IsCreate {D : Type 0} (r : Registry) (q : CreateSessionReq) (x : Created D) : Type 0 where
  nothing_started : (e : CreateError) → x.result ≡ err e → IsSame r x.registry → IsCreate r q x
  session_started :
      (s : Session)
      → x.result ≡ ok s
      → (r.runtimes s.id || r.launching s.id) ≡ false
      → IsSame (add_runtime r s.id) x.registry
      → IsAsked q s
      → IsCreate r q x

valid_command :
    (w : CreateWorld) (k : CommandRecord) → check_command w k ≡ ok tt → valid_source k ≡ true
unfolding check_command
valid_command w k e = elim (Bool-cases (valid_source k)) [
  | inl y ↦ y
  | inr n ↦ ground (arith, rw n at e)
]

fail_if-ok : (b : Bool) (e : CreateError) → fail_if b e ≡ ok tt → b ≡ false
fail_if-ok true e h = ground (arith, h)
fail_if-ok false e h = refl

or_text : Result CreateError String → String
or_text (ok s) = s
or_text (err e) = ""

first_of : Result CreateError (String × String) → String
first_of (ok (s, _)) = s
first_of (err e) = ""

one_command :
    (command : List String) (text : String)
    → only_command command ≡ ok text
    → (command ≡ text ∷ []) × ((trim_space text == "") ≡ false)
unfolding or_text
one_command [] text e = ground (arith, e)
one_command (a ∷ b ∷ cs) text e = ground (arith, e)
one_command (a ∷ []) text e = elim (Bool-cases (trim_space a == "")) [
  | inl y ↦ ground (arith, rw y at e)
  | inr n ↦
      let p : a ≡ text = ap or_text (rw n at e) in
      (ap (λ x. x ∷ []) p, subst (λ x. (trim_space x == "") ≡ false) p n)
]

checked_request :
    (c : CreateConfig) (w : CreateWorld) (q : CreateSessionReq) (text cwd : String)
    → check_create c w q ≡ ok (text, cwd)
    → ((trim_space q.name == "") ≡ false)
      × (q.command ≡ text ∷ [])
      × ((trim_space text == "") ≡ false)
unfolding check_create first_of
checked_request c w q text cwd e =
    let (_, n, e1) =
      bind-ok (fail_if (trim_space q.name == "") (rejected (session_error missing_name))) _
        (text, cwd) e in
    let (a, o, e2) = bind-ok (only_command q.command) _ (text, cwd) e1 in
    let (u, _, e3) =
      bind-ok (dir_or w (resolve_session_cwd w (if trim_space q.cwd == "" then c.cwd else q.cwd))) _
        (text, cwd) e2 in
    let (_, _, e4) = bind-ok (checked_size (requested_size q)) _ (text, cwd) e3 in
    let p : a ≡ text = ap (λ x. first_of x) e4 in
    let k = one_command q.command text (subst (λ x. only_command q.command ≡ ok x) p o) in
    (fail_if-ok _ _ n, k.0, k.1)

module _ {D : Type 0} (store : RuntimeStore D) (w : CreateWorld) (r : Registry)
    (q : CreateSessionReq) where
  launch-IsStart :
      (g : Registry) (d : D) (s : Session) (size : TerminalSize)
      → IsStart g s.id (launch store w g d s size).1
  unfolding launch
  launch-IsStart g d s size =
      go
        (start_claimed_session_runtime g (record w.start { save_error = none }) s s.command.command
          size)
        (start_claimed_session_runtime-IsStart g (record w.start { save_error = none }) s
          s.command.command size)
    where
      at_state :
          (l : Launch) (o : Option StateRecord)
          → IsStart g s.id l
          → IsStart g s.id (saved_launch store w g d s size l o).1
      at_state l none h = h
      at_state l (some state) h =
          start_claimed_session_runtime-IsStart g
            (refused_save store w (save_started store d w.now s l.saved_process state).1) s
            s.command.command size

      go :
          (l : Launch)
          → IsStart g s.id l
          → IsStart g s.id (saved_launch store w g d s size l l.saved_state).1
      go l h = at_state l l.saved_state h

  launched-IsCreate :
      (d : D) (s : Session) (l : Launch)
      → (r.runtimes s.id || r.launching s.id) ≡ false
      → IsAsked q s
      → IsStart (record r { launching = set_key r.launching s.id true }) s.id l
      → IsCreate r q (launched_session store w d (release_session_start l.registry s.id) s l.result)
  unfolding launched_session
  launched-IsCreate d s l f a (nothing_left e p) =
      subst
        (λ m.
          IsCreate r q
            (launched_session store w d (release_session_start m.registry s.id) s m.result))
        (sym p) (nothing_started (not_started e) refl (claim_and_release r s.id f))
  launched-IsCreate d s l f a (running _ ok' _ _ reg _ _) =
      subst
        (λ y. IsCreate r q (launched_session store w d (release_session_start l.registry s.id) s y))
        (sym ok')
        (session_started s refl f
          (subst (λ g. IsSame (add_runtime r s.id) (release_session_start g s.id)) (sym reg)
            (add_and_release r s.id f))
          a)

  claimed-IsCreate :
      (d : D) (s : Session) (size : TerminalSize)
      → IsAsked q s
      → IsCreate r q (claimed_session store w d s size (claim_session_start r s.id))
  unfolding claimed_session
  claimed-IsCreate d s size a = elim (claim-cases r s.id) [
    | inl e ↦
        subst (λ k. IsCreate r q (claimed_session store w d s size k)) (sym e)
          (nothing_started _ refl (same r))
    | inr (e, f) ↦
        let g : Registry = record r { launching = set_key r.launching s.id true } in
        subst (λ k. IsCreate r q (claimed_session store w d s size k)) (sym e)
          (launched-IsCreate (launch store w g d s size).0 s (launch store w g d s size).1 f a
            (launch-IsStart g d s size))
  ]

  created-IsCreate :
      (size : TerminalSize) (s : Session) (x : D × Result StoreError (Unit {0}))
      → IsAsked q s
      → IsCreate r q (start_created store w r size (saved_session store s x))
  unfolding start_created
  created-IsCreate size s (d, err e) a = nothing_started _ refl (same r)
  created-IsCreate size s (d, ok _) a = claimed-IsCreate d s size a

  module _ (c : CreateConfig) where
    saved-IsCreate :
        (d : D) (ws : Workspace) (cwd text : String) (id : Option String)
        → (trim_space q.name == "") ≡ false
        → q.command ≡ text ∷ []
        → (trim_space text == "") ≡ false
        → valid_source (create_command w q text) ≡ true
        → IsCreate r q (
            start_created store w r
              (requested_size q)
              (create_saved store c w d ws (trim_space q.name) cwd (create_command w q text) id))
    unfolding create_command new_session start_created
    saved-IsCreate d ws cwd text none n k b v = nothing_started no_id refl (same r)
    saved-IsCreate d ws cwd text (some id) n k b v =
        let s = new_session c w id ws (trim_space q.name) cwd (create_command w q text) in
        created-IsCreate (requested_size q) s (store.save_session d s) (refl, n, k, b, v)

    in-IsCreate :
        (text cwd : String) (x : D × Result CreateError Workspace)
        → (trim_space q.name == "") ≡ false
        → q.command ≡ text ∷ []
        → (trim_space text == "") ≡ false
        → IsCreate r q (create_in store c w r q text cwd x)
    unfolding create_in
    in-IsCreate text cwd (d, err e) n k b = nothing_started e refl (same r)
    in-IsCreate text cwd (d, ok ws) n k b = go (check_command w (create_command w q text)) refl
      where
        go :
            (x : Result CreateError (Unit {0}))
            → check_command w (create_command w q text) ≡ x
            → IsCreate r q (create_checked store c w r d q ws cwd (create_command w q text) x)
        go (err e) p = nothing_started e refl (same r)
        go (ok _) p =
            saved-IsCreate d ws cwd text w.session_id n k b
              (valid_command w (create_command w q text) p)

    with-IsCreate :
        (d : D) (x : Result CreateError (String × String))
        → check_create c w q ≡ x
        → IsCreate r q (create_with store c w r d q x)
    unfolding create_with
    with-IsCreate d (err e) p = nothing_started e refl (same r)
    with-IsCreate d (ok (text, cwd)) p =
        let (n, k, b) = checked_request c w q text cwd p in
        in-IsCreate text cwd (workspace_for_create_session store w d q.workspace_id cwd) n k b

    -- CreateSession either returns an error and leaves the registry with the runtimes and launches
    -- that it had, or returns a session that had neither a runtime nor a launch, adds its runtime and
    -- changes no other. That session has the trimmed name and the one command of the request, neither
    -- of which is blank, and a valid source.
    pub create_session-IsCreate : (d : D) → IsCreate r q (create_session store c w r d q)
    unfolding create_session
    create_session-IsCreate d = with-IsCreate d (check_create c w q) refl
