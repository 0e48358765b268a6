-- ===== src/Cloud/Auth/External.antt =====
-- Sign-in with another provider: the state of a request is used once.
use term_bridge.Prelude.{
  ◌+◌, String, Bool, true, false, eqb, ◌≤◌, ◌≡◌, ◌≢◌, refl, sym, ap, ◌∙◌, if◌then◌else◌, if_both,
  some, List, [], ◌∷◌, Result, ok, arith,
}
use term_bridge.Prelude.Text.{trim_space}
use term_bridge.Cloud.Auth.{
  OauthState, Tables, Db, AuthError, update_where, count_where, update_state, db_failed,
}
use term_bridge.Cloud.Auth.Queries.{is_usable_state, use_oauth_state}
use term_bridge.Cloud.Auth.Inversion.{ok-injective, err-ok}

abbrev mark_state : Db → OauthState → OauthState
mark_state db s = record s { used_at = some db.now }

-- A state that was marked if it was usable is not usable later.
marked_unusable :
    (db db' : Db) (provider state : String) (s : OauthState)
    → db.now ≤ db'.now
    → is_usable_state db' provider state
        (if is_usable_state db provider state s then mark_state db s else s)
      ≡ false
marked_unusable db db' provider state s later =
    if_both (λ x. is_usable_state db' provider state x ≡ false)
      (is_usable_state db provider state s) (mark_state db s) s (λ y. ground (arith))
      (λ n. ground (arith, n, later))

-- After one use of a state no row of it is usable.
count-update_where :
    (db db' : Db) (provider state : String) (ss : List OauthState)
    → db.now ≤ db'.now
    → count_where
        (is_usable_state db' provider state)
        (update_where (is_usable_state db provider state) (mark_state db) ss)
      ≡ 0
unfolding count_where update_where
count-update_where db db' provider state [] later = refl
count-update_where db db' provider state (s ∷ ss) later =
    ap
      (λ b.
        if b
        then 1
          + count_where (is_usable_state db' provider state)
              (update_where (is_usable_state db provider state) (mark_state db) ss)
        else count_where (is_usable_state db' provider state)
            (update_where (is_usable_state db provider state) (mark_state db) ss))
      (marked_unusable db db' provider state s later)
    ∙ count-update_where db db' provider state ss later

-- A call that finds a state usable has marked its row.
used_states :
    (db : Db) (provider state : String) (t t' : Tables) (b : Bool)
    → use_oauth_state db provider state t ≡ (t', ok b)
    → (t'.states
        ≡ update_where (is_usable_state db (trim_space provider) state) (mark_state db) t.states)
      × (eqb (count_where (is_usable_state db (trim_space provider) state) t.states) 1 ≡ b)
unfolding use_oauth_state
used_states db provider state t t' b =
    if_both
      (λ (x : Tables × Result AuthError Bool).
        x ≡ (t', ok b)
        → (t'.states
            ≡ update_where (is_usable_state db (trim_space provider) state) (mark_state db)
                t.states)
          × (eqb (count_where (is_usable_state db (trim_space provider) state) t.states) 1 ≡ b))
      (db.fails update_state) _ _ (λ _ h. err-ok db_failed b (ap (λ y. y.1) h))
      (λ _ h. (sym (ap (λ y. y.0.states) h), ok-injective _ b (ap (λ y. y.1) h)))

-- A state is used once: when UseOAuthState has found it usable for a provider, a call for the same state and provider on the tables that it left, whose clock is not earlier, does not, whatever the database answers.
pub use_oauth_state-once :
    (db db' : Db) (provider state : String) (t t' t2 : Tables)
    → db.now ≤ db'.now
    → use_oauth_state db provider state t ≡ (t', ok true)
    → use_oauth_state db' provider state t' ≢ (t2, ok true)
use_oauth_state-once db db' provider state t t' t2 later h k =
    let (marked, _) = used_states db provider state t t' true h in
    let (_, counted) = used_states db' provider state t' t2 true k in
    let none_left =
      ap (count_where (is_usable_state db' (trim_space provider) state)) marked
      ∙ count-update_where db db' (trim_space provider) state t.states later in
    absurd (ground (arith, counted, ap (λ n. eqb n 1) none_left))
