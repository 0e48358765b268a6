-- ===== src/Terminal/Registry/Views/Listed.antt =====
-- What ListSessions of registry.go shows of the stored sessions.
use mathlib.Core.List.{Perm}
use term_bridge.Prelude.{
  ◌≤◌, true, false, Option, none, some, List, [], ◌∷◌, All, Result, ok, err, ◌≡◌, ◌⊎◌,
}
use term_bridge.Session.State.{state_running, terminal}
use term_bridge.Session.Record.{View}
use term_bridge.Store.Disk.{StoreError, Warning}
use term_bridge.Terminal.Runtime.{Runtime, attachment_text}
use term_bridge.Terminal.Registry.{Registry}
use term_bridge.Terminal.Registry.Requests.{RegistryError, runtime}
use term_bridge.Terminal.Registry.Views.{Live, Summary}

-- The states that a summary shows: those of the runtime of the session, and without a runtime the
-- saved state, or an end of the session where the saved state was none.
abbrev pub States : View → Option Runtime → Summary → Type 0
States v none s =
    (s.attachment_state ≡ "unattached")
    × ((s.lifecycle_state ≡ v.state.state)
        ⊎ ((terminal v.state.state ≡ false) × (terminal s.lifecycle_state ≡ true)))
States v (some t) s =
    (s.attachment_state ≡ attachment_text t.attachment) × (s.lifecycle_state ≡ state_running)

-- A summary of a stored view.
pub record Summarizes (live : Live) (v : View) (s : Summary) : Type 0 where
  pub same_id : s.id ≡ v.session.id
  pub same_workspace : s.workspace_id ≡ v.session.workspace_id
  pub same_name : s.name ≡ v.session.name
  pub same_time : s.updated_at ≡ v.session.updated_at
  pub states : States v (live v.session.id) s

-- One summary of each view, in their order.
pub data Summarize (live : Live) : List View → List Summary → Type 0 where
  no_summaries : Summarize live [] []
  one_summary :
      {v : View} {s : Summary} {vs : List View} {ss : List Summary}
      → Summarizes live v s
      → Summarize live vs ss
      → Summarize live (v ∷ vs) (s ∷ ss)

-- No session comes after one that was updated earlier.
abbrev pub IsNewestFirst : List Summary → Type 0
IsNewestFirst [] = Unit {0}
IsNewestFirst (s ∷ ss) = All (λ (t : Summary). t.updated_at ≤ s.updated_at) ss × IsNewestFirst ss

-- What ListSessions gives for an answer of the store.
pub data IsListing {D : Type 0} (live : Live) (d : D)
    : Result StoreError (List View × List Warning)
      → D × Result RegistryError (List Summary)
      → Type 0 where
  refused : (e : StoreError) → IsListing live d (err e) (d, err (runtime e))
  listed :
      {vs : List View} {warnings : List Warning} {d' : D} {shown : List Summary}
      → (ss : List Summary) → Summarize live vs ss
      → Perm ss shown
      → IsNewestFirst shown
      → IsListing live d (ok (vs, warnings)) (d', ok shown)

-- The state of a view that is shown is the saved one, or an end where that was none.
KeptOrEnded : View → View → Type 0
KeptOrEnded v v' =
    (v'.state.state ≡ v.state.state)
    ⊎ ((terminal v.state.state ≡ false) × (terminal v'.state.state ≡ true))
