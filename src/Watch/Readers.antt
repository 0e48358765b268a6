-- ===== src/Watch/Readers.antt =====
-- What a change does to every reader of a watch, and what a reader gets in the end.
use term_bridge.Prelude.{
  ℕ, zero, suc, ◌+◌, ◌≤◌, ◌≡◌, refl, sym, ap, subst, ◌∙◌, ◌⊎◌, inl, inr, String, Bool, true, false,
  List, [], ◌∷◌, ◌++◌, All, length, take, drop, arith, if◌then◌else◌, if_both,
}
use term_bridge.Watch.{
  ChangeKind, WorkspaceChange, Subscription, RootWatcher, take_events, is_full, send, send_all,
  rescan, publish, publish_rescan_and_close, replace_events, replace_all,
}
use term_bridge.Watch.Run.{FilePath}
use term_bridge.Watch.Streams.{IsEnded, IsSound, stream}
use term_bridge.Watch.Safety.{IsDone, All-map}
use term_bridge.Watch.Steps.{Reached, watch_invariant}

-- The channel is empty, and what its reader has got is sound.
abbrev pub IsRead : Subscription → Type 0
IsRead s = (s.events ≡ []) × IsSound s.taken

drop_all : {A : Type 0} (k : ℕ) (xs : List A) → length xs ≤ k → drop k xs ≡ []
drop_all zero [] l = refl
drop_all zero (x ∷ xs) l = absurd (ground (arith, l))
drop_all (suc k) [] l = refl
drop_all (suc k) (x ∷ xs) l = drop_all k xs (ground (arith, l))

take_all : {A : Type 0} (k : ℕ) (xs : List A) → length xs ≤ k → take k xs ≡ xs
take_all zero [] l = refl
take_all zero (x ∷ xs) l = absurd (ground (arith, l))
take_all (suc k) [] l = refl
take_all (suc k) (x ∷ xs) l = ap (◌∷◌ x) (take_all k xs (ground (arith, l)))

done-IsRead : (size : ℕ) (s : Subscription) → IsDone size s → IsRead (take_events size s)
unfolding take_events IsEnded stream
done-IsRead size s (e, l) = (
  drop_all size s.events l,
  subst IsSound (ap (λ x. s.taken ++ x) (sym (take_all size s.events l))) e,
)

-- A reader whose subscription has ended gets everything within as many receives as the channel has room for, at least one: then the channel is empty, and what it has got are changes that are numbered without a gap; or, when the watch dropped changes, changes with rising numbers and exactly one event at the end, with a higher number, that asks for a new scan.
pub ended-IsRead :
    (f : FilePath) (size : ℕ) (r : RootWatcher)
    → 1 ≤ size
    → Reached f size r
    → All (λ s. IsRead (take_events size s)) r.ended
ended-IsRead f size r one reached =
    All-map (IsDone size) (λ s. IsRead (take_events size s)) r.ended (done-IsRead size)
      (watch_invariant size f r one reached).1

-- Every subscription with the event behind what is in its channel.
unfoldable pub send_each : WorkspaceChange → List Subscription → List Subscription
unfolding send
send_each c [] = []
send_each c (s ∷ ss) = send c s ∷ send_each c ss

send_all-sent :
    (size : ℕ) (c : WorkspaceChange) (ss : List Subscription)
    → (send_all size c ss).1 ≡ true
    → (send_all size c ss).0 ≡ send_each c ss
unfolding send_all send_each
send_all-sent size c [] = λ _. refl
send_all-sent size c (s ∷ ss) =
    if_both (λ (x : List Subscription × Bool). x.1 ≡ true → x.0 ≡ send c s ∷ send_each c ss)
      (is_full size s) (s ∷ ss, false) (send c s ∷ (send_all size c ss).0, (send_all size c ss).1)
      (λ _ t. absurd (ground (arith, t)))
      (λ _ t. ap (λ x. send c s ∷ x) (send_all-sent size c ss t))

length-send_all :
    (size : ℕ) (c : WorkspaceChange) (ss : List Subscription)
    → length (send_all size c ss).0 ≡ length ss
unfolding send_all
length-send_all size c [] = refl
length-send_all size c (s ∷ ss) =
    if_both (λ (x : List Subscription × Bool). length x.0 ≡ suc (length ss)) (is_full size s)
      (s ∷ ss, false) (send c s ∷ (send_all size c ss).0, (send_all size c ss).1) (λ _. refl)
      (λ _. ap suc (length-send_all size c ss))

-- Channels of subscriptions that have one event.
abbrev pub HasOnly : WorkspaceChange → Subscription → Type 0
HasOnly c s = s.events ≡ c ∷ []

replace_all-HasOnly :
    (c : WorkspaceChange) (reads : ℕ → List Bool) (ss ended : List Subscription)
    → (told : List Subscription) × (replace_all c reads ss ended ≡ told ++ ended)
      × (length told ≡ length ss)
      × All (HasOnly c) told
unfolding replace_all replace_events send take_events
replace_all-HasOnly c reads [] ended = ([], refl, refl, tt)
replace_all-HasOnly c reads (s ∷ ss) ended =
    let (told, e, n, h) = replace_all-HasOnly c reads ss ended in
    (replace_events c reads s ∷ told, ap (λ x. replace_events c reads s ∷ x) e, ap suc n, (refl, h))

-- A change has reached the subscriptions of a watch: all have it as the last event in their channels and the watch is open; or it is closed, all have ended, and each has just the event that asks for a new scan in its channel.
abbrev pub HasReached : WorkspaceChange → RootWatcher → RootWatcher → Type 0
HasReached c r r' =
    ((r'.closed ≡ false) × (r'.subscribers ≡ send_each c r.subscribers))
    ⊎ ((r'.closed ≡ true)
        × (r'.subscribers ≡ [])
        × ((told : List Subscription) × (r'.ended ≡ told ++ r.ended)
            × (length told ≡ length r.subscribers)
            × All (HasOnly (rescan (c.sequence + 1))) told))

rescan_reaches :
    (reads : ℕ → List Bool) (c : WorkspaceChange) (r r' : RootWatcher)
    → r'.closed ≡ false
    → r'.sequence ≡ c.sequence
    → r'.ended ≡ r.ended
    → length r'.subscribers ≡ length r.subscribers
    → HasReached c r (publish_rescan_and_close reads r')
unfolding publish_rescan_and_close
rescan_reaches reads c r r' is_open same old count =
    if_both (HasReached c r) r'.closed r' _ (λ y. absurd (ground (arith, y, is_open)))
      (λ _.
        let (told, e, n, h) =
          replace_all-HasOnly (rescan (r'.sequence + 1)) reads r'.subscribers r'.ended in
        inr (
          refl,
          refl,
          (
            told,
            e ∙ ap (λ x. told ++ x) old,
            n ∙ count,
            subst (λ k. All (HasOnly (rescan (k + 1))) told) same h,
          ),
        ))

-- Publishing a change on an open watch reaches every subscription: either all of them have the change as the last event in their channels and the watch is open, or the watch is closed, all have ended, and each of them has just the event that asks for a new scan in its channel.
pub publish-HasReached :
    (size : ℕ) (reads : ℕ → List Bool) (kind : ChangeKind) (path : String) (r : RootWatcher)
    → r.closed ≡ false
    → HasReached
        (record { sequence = r.sequence + 1; kind = kind; path = path })
        r
        (publish size reads kind path r)
unfolding publish
publish-HasReached size reads kind path r is_open =
    let c : WorkspaceChange = record { sequence = r.sequence + 1; kind = kind; path = path } in
    let x = send_all size c r.subscribers in
    let r' : RootWatcher = record r { sequence = r.sequence + 1; subscribers = x.0 } in
    if_both (HasReached c r) r.closed r (if x.1 then r' else publish_rescan_and_close reads r')
      (λ y. absurd (ground (arith, y, is_open)))
      (λ _.
        if_both (HasReached c r) x.1 r' (publish_rescan_and_close reads r')
          (λ sent. inl (is_open, send_all-sent size c r.subscribers sent))
          (λ _.
            rescan_reaches reads c r r' is_open refl refl (length-send_all size c r.subscribers)))
