-- ===== src/Session/State/Transitions.antt =====
-- Which transitions the state machine of sessions allows.
use term_bridge.Prelude.{String, true, eq_iff, ◌≡◌, sym, subst, ◌∙◌, ◌↔◌, ◌⊎◌, inl, inr, ok, arith}
use term_bridge.Session.State.{
  valid_state, can_transition, validate_transition, state_running, state_stopped, state_failed,
}

state-cases :
    (s : String)
    → valid_state s ≡ true
    → (s ≡ state_running) ⊎ (s ≡ state_stopped) ⊎ (s ≡ state_failed)
unfolding valid_state
state-cases s h =
    ground (arith, eq_iff s state_running, eq_iff s state_stopped, eq_iff s state_failed)

no_loop : (s : String) → valid_state s ≡ true → ¬ (can_transition s s ≡ true)
unfolding can_transition valid_state
no_loop s v h = elim (state-cases s v) [
  | inl e ↦ ground (arith, rw e at h)
  | inr (inl e) ↦ ground (arith, rw e at h)
  | inr (inr e) ↦ ground (arith, rw e at h)
]

allowed :
    (from to : String)
    → valid_state from ≡ true
    → valid_state to ≡ true
    → ¬ (from ≡ to)
    → can_transition from to ≡ true
unfolding can_transition valid_state
allowed from to v w n = elim (state-cases from v) [
  | inl e ↦ elim (state-cases to w) [
    | inl e' ↦ absurd (n (e ∙ sym e'))
    | inr (inl e') ↦ rw (e, e')
    | inr (inr e') ↦ rw (e, e')
  ]
  | inr (inl e) ↦ elim (state-cases to w) [
    | inl e' ↦ rw (e, e')
    | inr (inl e') ↦ absurd (n (e ∙ sym e'))
    | inr (inr e') ↦ rw (e, e')
  ]
  | inr (inr e) ↦ elim (state-cases to w) [
    | inl e' ↦ rw (e, e')
    | inr (inl e') ↦ rw (e, e')
    | inr (inr e') ↦ absurd (n (e ∙ sym e'))
  ]
]

transition-valid :
    (from to : String)
    → can_transition from to ≡ true
    → (valid_state from ≡ true) × (valid_state to ≡ true)
unfolding can_transition
transition-valid from to h = (ground arith, ground arith)

-- ValidateTransition accepts exactly the pairs of two different valid states.
pub validate_transition_iff :
    (from to : String)
    → (validate_transition from to ≡ ok tt)
      ↔ ((valid_state from ≡ true) × (valid_state to ≡ true) × ¬ (from ≡ to))
unfolding validate_transition
validate_transition_iff from to = (
  λ h.
      (let t : can_transition from to ≡ true = ground arith in
        let (v, w) = transition-valid from to t in
        (v, w, λ e. no_loop from v (subst (λ s. can_transition from s ≡ true) (sym e) t))),
  λ h. rw (allowed from to h.0 h.1 h.2),
)
