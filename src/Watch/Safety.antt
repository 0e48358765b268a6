-- ===== src/Watch/Safety.antt =====
-- The invariant of a watch: what each subscription has, and that publishing keeps it.
use term_bridge.Prelude.{
  ℕ, ◌+◌, ◌<◌, ◌≤◌, ◌≡◌, refl, inl, String, Bool, true, false, ◌||◌, List, [], ◌∷◌, All, length,
  length-append, arith, if◌then◌else◌, if_both, ok, err,
}
use term_bridge.Watch.{
  ChangeKind, added, updated, deleted, WorkspaceChange, Subscription, RootWatcher, is_full, send,
  take_events, replace_events, replace_all, rescan, publish_rescan_and_close, send_all, publish,
  is_empty,
}
use term_bridge.Watch.Run.{
  FilePath, WatchWorld, Event, handle_change, handle_event, is_watched, workspace_path,
  is_temporary_file,
}
use term_bridge.Watch.Streams.{
  is_change, IsComplete, IsEnded, send-IsComplete, replace_events-IsEnded,
}

-- A subscription of an open watch, at a sequence number.
abbrev pub IsActive : ℕ → ℕ → Subscription → Type 0
IsActive size m s = IsComplete m s × (length s.events ≤ size)

-- A subscription whose channel is closed.
abbrev pub IsDone : ℕ → Subscription → Type 0
IsDone size s = IsEnded s × (length s.events ≤ size)

-- A subscription that has all changes up to some number below another.
abbrev IsPartial : ℕ → Subscription → Type 0
IsPartial k s = (m : ℕ) × IsComplete m s × (m < k)

-- The invariant of a watch whose channels have a size.
abbrev pub Inv : ℕ → RootWatcher → Type 0
Inv size r =
    All (IsActive size r.sequence) r.subscribers
    × All (IsDone size) r.ended
    × (r.closed ≡ true → is_empty r.subscribers ≡ true)

pub All-map :
    {A : Type 0} (P Q : A → Type 0) (xs : List A) → ((x : A) → P x → Q x) → All P xs → All Q xs
All-map P Q [] f h = h
All-map P Q (x ∷ xs) f (p, h) = (f x p, All-map P Q xs f h)

pub active-IsDone : (size m : ℕ) (s : Subscription) → IsActive size m s → IsDone size s
unfolding IsComplete IsEnded
active-IsDone size m s ((n, h), l) = (inl (m, n, h), l)

module _ (size : ℕ) where
  send_all-IsActive :
      (m : ℕ) (c : WorkspaceChange) (ss : List Subscription)
      → c.sequence ≡ m + 1
      → is_change c.kind ≡ true
      → All (IsActive size m) ss
      → (send_all size c ss).1 ≡ true
      → All (IsActive size (m + 1)) (send_all size c ss).0
  unfolding send_all send
  send_all-IsActive m c [] e k h = λ t. h
  send_all-IsActive m c (s ∷ ss) e k ((p, l), h) =
      if_both (λ (x : List Subscription × Bool). x.1 ≡ true → All (IsActive size (m + 1)) x.0)
        (is_full size s) (s ∷ ss, false) (send c s ∷ (send_all size c ss).0, (send_all size c ss).1)
        (λ _ t. absurd (ground (arith, t)))
        (λ n t. (
          (send-IsComplete m c s e k p, ground (arith, n, length-append s.events (c ∷ []))),
          send_all-IsActive m c ss e k h t,
        ))

  send_all-IsPartial :
      (m : ℕ) (c : WorkspaceChange) (ss : List Subscription)
      → c.sequence ≡ m + 1
      → is_change c.kind ≡ true
      → All (IsActive size m) ss
      → All (IsPartial (m + 1 + 1)) (send_all size c ss).0
  unfolding send_all
  send_all-IsPartial m c [] e k h = h
  send_all-IsPartial m c (s ∷ ss) e k ((p, l), h) =
      if_both (λ (x : List Subscription × Bool). All (IsPartial (m + 1 + 1)) x.0) (is_full size s)
        (s ∷ ss, false) (send c s ∷ (send_all size c ss).0, (send_all size c ss).1)
        (λ _. (
          (m, p, omega arith),
          All-map (IsActive size m) (IsPartial (m + 1 + 1)) ss (λ x q. (m, q.0, omega arith)) h,
        ))
        (λ _. ((m + 1, send-IsComplete m c s e k p, omega arith), send_all-IsPartial m c ss e k h))

  replace_all-IsDone :
      (k : ℕ) (reads : ℕ → List Bool) (ss ended : List Subscription)
      → 1 ≤ size
      → All (IsPartial k) ss
      → All (IsDone size) ended
      → All (IsDone size) (replace_all (rescan k) reads ss ended)
  unfolding replace_all replace_events send take_events
  replace_all-IsDone k reads [] ended one h d = d
  replace_all-IsDone k reads (s ∷ ss) ended one ((m, p, l), h) d =
      ((replace_events-IsEnded m k reads s p l, one), replace_all-IsDone k reads ss ended one h d)

  rescan-Inv :
      (reads : ℕ → List Bool) (r : RootWatcher)
      → 1 ≤ size
      → All (IsPartial (r.sequence + 1)) r.subscribers
      → All (IsDone size) r.ended
      → r.closed ≡ false
      → Inv size (publish_rescan_and_close reads r)
  unfolding publish_rescan_and_close
  rescan-Inv reads r one h d is_open =
      if_both (Inv size) r.closed r _ (λ y. absurd (ground (arith, y, is_open)))
        (λ _.
          (tt, replace_all-IsDone (r.sequence + 1) reads r.subscribers r.ended one h d, λ _. refl))

  pub publish_rescan_and_close-Inv :
      (reads : ℕ → List Bool) (r : RootWatcher)
      → 1 ≤ size
      → Inv size r
      → Inv size (publish_rescan_and_close reads r)
  unfolding publish_rescan_and_close
  publish_rescan_and_close-Inv reads r one (h, d, c) =
      if_both (Inv size) r.closed r _ (λ _. (h, d, c))
        (λ _. (
          tt,
          replace_all-IsDone (r.sequence + 1) reads r.subscribers r.ended one
              (All-map (IsActive size r.sequence) (IsPartial (r.sequence + 1)) r.subscribers
                (λ x q. (r.sequence, q.0, omega arith)) h)
              d,
          λ _. refl,
        ))

  pub publish-Inv :
      (reads : ℕ → List Bool) (kind : ChangeKind) (path : String) (r : RootWatcher)
      → 1 ≤ size
      → is_change kind ≡ true
      → Inv size r
      → Inv size (publish size reads kind path r)
  unfolding publish
  publish-Inv reads kind path r one k (h, d, c) =
      let change : WorkspaceChange = record {
        sequence = r.sequence + 1;
        kind = kind;
        path = path;
      } in
      let x = send_all size change r.subscribers in
      let r' : RootWatcher = record r { sequence = r.sequence + 1; subscribers = x.0 } in
      if_both (Inv size) r.closed r (if x.1 then r' else publish_rescan_and_close reads r')
        (λ _. (h, d, c))
        (λ is_open.
          if_both (Inv size) x.1 r' (publish_rescan_and_close reads r')
            (λ sent. (
              send_all-IsActive r.sequence change r.subscribers refl k h sent,
              d,
              λ y. absurd (ground (arith, y, is_open)),
            ))
            (λ _.
              rescan-Inv reads r' one (send_all-IsPartial r.sequence change r.subscribers refl k h)
                d is_open))

  handle_change-Inv :
      (w : WatchWorld) (e : Event) (path : String) (r : RootWatcher)
      → 1 ≤ size
      → Inv size r
      → Inv size (handle_change size w e path r)
  unfolding handle_change
  handle_change-Inv w e path r one h =
      let again = publish_rescan_and_close-Inv w.reads r one h in
      if_both (Inv size) e.is_rename _ _ (λ _. again)
        (λ _.
          if_both (Inv size) e.is_create _ _
            (λ _.
              if_both (Inv size) (is_watched w w.lstat) _ _
                (λ _. publish-Inv w.reads added path r one refl h) (λ _. again))
            (λ _.
              if_both (Inv size) e.is_remove _ _
                (λ _. publish-Inv w.reads deleted path r one refl h)
                (λ _.
                  if_both (Inv size) (e.is_write || e.is_chmod) _ _
                    (λ _. publish-Inv w.reads updated path r one refl h) (λ _. h))))

  pub handle_event-Inv :
      (f : FilePath) (w : WatchWorld) (e : Event) (r : RootWatcher)
      → 1 ≤ size
      → Inv size r
      → Inv size (handle_event f size w e r)
  unfolding handle_event
  handle_event-Inv f w e r one h =
      if_both (Inv size) (is_temporary_file f e.name) _ _ (λ _. h)
        (λ _.
          elim (workspace_path f r.root e.name)
            as (λ x. Inv size (elim x [
              | err _ ↦ publish_rescan_and_close w.reads r
              | ok path ↦ handle_change size w e path r
            ])) [
              | err _ ↦ publish_rescan_and_close-Inv w.reads r one h
              | ok path ↦ handle_change-Inv w e path r one h
            ])
