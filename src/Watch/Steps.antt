-- ===== src/Watch/Steps.antt =====
-- A watch under any order of subscriptions, events, reads and closes. A step is what one goroutine
-- does under one hold of the lock, or one receive (receives during a drain are part of it); the channels are in the order of a walk, which Go
-- changes at will.
use term_bridge.Prelude.{
  ℕ, ◌≤◌, ◌≡◌, refl, sym, ap, subst, ◌∙◌, String, Bool, true, false, ◌||◌, List, [], ◌∷◌, ◌++◌, All,
  All-append, length, length-drop, arith, if_both, eqb,
}
use term_bridge.Watch.{
  Subscription, RootWatcher, new_root_watcher, subscribe, take_events, publish_rescan_and_close,
  without, only, is_empty, remove_subscriber, close, receive_event, receive_by,
}
use term_bridge.Watch.Run.{FilePath, WatchWorld, Event, handle_event}
use term_bridge.Watch.Streams.{
  IsComplete, Numbered, stream, take_events-IsComplete, take_events-IsEnded,
}
use term_bridge.Watch.Safety.{
  IsActive, IsDone, Inv, All-map, active-IsDone, publish_rescan_and_close-Inv, handle_event-Inv,
}

module _ (f : FilePath) (size : ℕ) where
  pub data Step : RootWatcher → RootWatcher → Type 0 where
    subscribes : {r : RootWatcher} → Step r (subscribe r).0
    handles : {r : RootWatcher} (w : WatchWorld) (e : Event) → Step r (handle_event f size w e r)
    rescans : {r : RootWatcher} (reads : ℕ → List Bool) → Step r (publish_rescan_and_close reads r)
    removes : {r : RootWatcher} (id : ℕ) → Step r (remove_subscriber id r)
    closes : {r : RootWatcher} → Step r (close r)
    receives : {r : RootWatcher} (id : ℕ) → Step r (receive_by id r)
    walks :
        {r : RootWatcher} (xs ys : List Subscription) (a b : Subscription)
        → r.subscribers ≡ xs ++ a ∷ b ∷ ys
        → Step r (record r { subscribers = xs ++ b ∷ a ∷ ys })

  pub data Reached : RootWatcher → Type 0 where
    started : (root : String) → Reached (new_root_watcher root)
    then_step : {r r' : RootWatcher} → Reached r → Step r r' → Reached r'

without-All :
    (P : Subscription → Type 0) (id : ℕ) (ss : List Subscription) → All P ss → All P (without id ss)
unfolding without
without-All P id [] h = h
without-All P id (s ∷ ss) (p, h) =
    if_both (All P) (eqb s.id id) (without id ss) (s ∷ without id ss) (λ _. without-All P id ss h)
      (λ _. (p, without-All P id ss h))

only-All :
    (P : Subscription → Type 0) (id : ℕ) (ss : List Subscription) → All P ss → All P (only id ss)
unfolding only
only-All P id [] h = h
only-All P id (s ∷ ss) (p, h) =
    if_both (All P) (eqb s.id id) (s ∷ only id ss) (only id ss) (λ _. (p, only-All P id ss h))
      (λ _. only-All P id ss h)

receive_event-All :
    (P : Subscription → Type 0) (id : ℕ) (ss : List Subscription)
    → ((s : Subscription) → P s → P (take_events 1 s))
    → All P ss
    → All P (receive_event id ss)
unfolding receive_event
receive_event-All P id [] f h = h
receive_event-All P id (s ∷ ss) f (p, h) = (
  if_both P (eqb s.id id) (take_events 1 s) s (λ _. f s p) (λ _. p),
  receive_event-All P id ss f h,
)

is_empty-receive_event :
    (id : ℕ) (ss : List Subscription) → is_empty (receive_event id ss) ≡ is_empty ss
unfolding receive_event
is_empty-receive_event id [] = refl
is_empty-receive_event id (s ∷ ss) = refl

swap-All :
    (P : Subscription → Type 0) (xs ys : List Subscription) (a b : Subscription)
    → All P (xs ++ a ∷ b ∷ ys)
    → All P (xs ++ b ∷ a ∷ ys)
swap-All P [] ys a b (p, (q, h)) = (q, (p, h))
swap-All P (x ∷ xs) ys a b (p, h) = (p, swap-All P xs ys a b h)

is_empty-swap :
    (xs ys : List Subscription) (a b : Subscription)
    → is_empty (xs ++ a ∷ b ∷ ys) ≡ is_empty (xs ++ b ∷ a ∷ ys)
is_empty-swap [] ys a b = refl
is_empty-swap (x ∷ xs) ys a b = refl

left_empty :
    (id : ℕ) (ss : List Subscription) (closed : Bool)
    → (closed ≡ true → is_empty ss ≡ true)
    → is_empty (only id ss) ≡ false
    → is_empty (without id ss) || closed ≡ true
    → is_empty (without id ss) ≡ true
unfolding only
left_empty id [] closed c n y = absurd (ground (arith, n))
left_empty id (s ∷ ss) true c n y = absurd (ground (arith, c refl))
left_empty id (s ∷ ss) false c n y = ground (arith, y)

length-take_events :
    (size k : ℕ) (s : Subscription)
    → length s.events ≤ size
    → length (take_events k s).events ≤ size
unfolding take_events
length-take_events size k s l = ground (arith, length-drop k s.events, l)

module _ (size : ℕ) where
  subscribe-Inv : (r : RootWatcher) → Inv size r → Inv size (subscribe r).0
  unfolding subscribe IsComplete Numbered stream
  subscribe-Inv r (h, d, c) =
      if_both (λ (x : RootWatcher × _). Inv size x.0) r.closed _ _ (λ _. (h, d, c))
        (λ n. ((((r.sequence, refl), omega arith), h), d, λ y. absurd (ground (arith, y, n))))

  close-Inv : (r : RootWatcher) → Inv size r → Inv size (close r)
  unfolding close
  close-Inv r (h, d, c) =
      if_both (Inv size) r.closed r _ (λ _. (h, d, c))
        (λ _. (
          tt,
          All-append (IsDone size) r.subscribers r.ended
              (All-map _ (IsDone size) r.subscribers (active-IsDone size r.sequence) h) d,
          λ _. refl,
        ))

  remove_subscriber-Inv :
      (id : ℕ) (r : RootWatcher) → Inv size r → Inv size (remove_subscriber id r)
  unfolding remove_subscriber
  remove_subscriber-Inv id r (h, d, c) =
      if_both (Inv size) (is_empty (only id r.subscribers)) r _ (λ _. (h, d, c))
        (λ n. (
          without-All (IsActive size r.sequence) id r.subscribers h,
          All-append (IsDone size) (only id r.subscribers) r.ended
              (All-map _ (IsDone size) (only id r.subscribers) (active-IsDone size r.sequence)
                (only-All (IsActive size r.sequence) id r.subscribers h))
              d,
          left_empty id r.subscribers r.closed c n,
        ))

  receive_by-Inv : (id : ℕ) (r : RootWatcher) → Inv size r → Inv size (receive_by id r)
  unfolding receive_by
  receive_by-Inv id r (h, d, c) = (
    receive_event-All (IsActive size r.sequence) id r.subscribers
        (λ s p. (take_events-IsComplete r.sequence 1 s p.0, length-take_events size 1 s p.1)) h,
    receive_event-All (IsDone size) id r.ended
        (λ s p. (take_events-IsEnded 1 s p.0, length-take_events size 1 s p.1)) d,
    λ y. is_empty-receive_event id r.subscribers ∙ c y,
  )

  Step-Inv :
      (f : FilePath) (r r' : RootWatcher) → 1 ≤ size → Step f size r r' → Inv size r → Inv size r'
  Step-Inv f r r' one subscribes h = subscribe-Inv r h
  Step-Inv f r r' one (handles w e) h = handle_event-Inv size f w e r one h
  Step-Inv f r r' one (rescans reads) h = publish_rescan_and_close-Inv size reads r one h
  Step-Inv f r r' one (removes id) h = remove_subscriber-Inv id r h
  Step-Inv f r r' one closes h = close-Inv r h
  Step-Inv f r r' one (receives id) h = receive_by-Inv id r h
  Step-Inv f r r' one (walks xs ys a b e) (h, d, c) = (
    swap-All (IsActive size r.sequence) xs ys a b
        (subst (λ x. All (IsActive size r.sequence) x) e h),
    d,
    λ y. sym (is_empty-swap xs ys a b) ∙ ap is_empty (sym e) ∙ c y,
  )

  -- Under any order of subscriptions, changes, reads and closes, and for channels with room for one event at least: an open subscription has got, or has in its channel, every change since it began, numbered without a gap, and no channel holds more than its size. One that has ended has all changes up to some number without a gap; or, when the watch dropped changes, some of the changes with rising numbers and after them exactly one event, the last, with a higher number, that asks for a new scan. A closed watch has no subscription.
  pub watch_invariant : (f : FilePath) (r : RootWatcher) → 1 ≤ size → Reached f size r → Inv size r
  unfolding new_root_watcher
  watch_invariant f r one (started root) = (tt, tt, λ _. refl)
  watch_invariant f r one (then_step before step) =
      Step-Inv f _ r one step (watch_invariant f _ one before)
