-- ===== src/Watch/Manager.antt =====
-- The Manager of internal/agent/infrastructure/workspacewatch/manager.go: one watch for each root.
-- Watches are numbered in the order in which they are made; whether the operating system gives a
-- watch and adds the directories of the root is an argument.
use term_bridge.Prelude.{
  ℕ, ◌+◌, String, Bool, true, false, not, ◌&&◌, ◌||◌, ◌==◌, eq_iff, eqb, ◌≡◌, refl, sym, ap, ◌∙◌,
  if◌then◌else◌, if_both, Option, none, some, Result, ok, err, arith,
}
use term_bridge.Prelude.Text.{trim_space}
use term_bridge.Watch.{RootWatcher, new_root_watcher, subscribe, close, validate}

pub record Manager : Type 0 where
  pub subscriber_queue_size : ℕ
  pub roots : String → Option ℕ
  pub watches : ℕ → RootWatcher
  pub count : ℕ
  pub closed : Bool

pub data WatchError : Type 0 where
  bad_config no_root bad_root manager_closed no_watch cancelled : WatchError

unfoldable pub new_manager : ℕ → Result WatchError Manager
unfolding validate new_root_watcher
new_manager size =
    if validate size
    then ok (record {
      subscriber_queue_size = size;
      roots = λ _. none;
      watches = λ _. new_root_watcher "";
      count = 0;
      closed = false;
    })
    else err bad_config

-- What os.Lstat and filepath.Abs say of a root.
pub record RootInfo : Type 0 where
  pub absolute : Option String
  pub is_dir : Option Bool
  pub is_unsafe : Bool
  pub clean : String → String

-- normalizeRoot
unfoldable pub normalize_root : RootInfo → String → Result WatchError String
unfolding trim_space
normalize_root i value = if trim_space value == "" then err no_root else elim i.absolute [
  | none ↦ err bad_root
  | some absolute ↦ elim i.is_dir [
    | none ↦ err bad_root
    | some dir ↦ if not dir || i.is_unsafe then err bad_root else ok (i.clean absolute)
  ]
]

abbrev pub set_root : (String → Option ℕ) → String → Option ℕ → String → Option ℕ
set_root roots root n other = if other == root then n else roots other

abbrev pub set_watch : (ℕ → RootWatcher) → ℕ → RootWatcher → ℕ → RootWatcher
set_watch ws n r m = if eqb m n then r else ws m

-- What a new watch needs of the operating system.
pub record StartWorld : Type 0 where
  pub created : Bool
  pub tree_added : Bool

-- startRootLocked
unfoldable pub start_root : StartWorld → String → Manager → Manager × Result WatchError ℕ
unfolding new_root_watcher
start_root w root m =
    if w.created && w.tree_added
    then (
      record m {
        roots = set_root m.roots root (some m.count);
        watches = set_watch m.watches m.count (new_root_watcher root);
        count = m.count + 1;
      },
      ok m.count,
    )
    else (m, err no_watch)

-- The watch of a root, under the lock of the manager.
unfoldable pub find_root : StartWorld → String → Manager → Manager × Result WatchError ℕ
unfolding start_root
find_root w root m =
    if m.closed
    then (m, err manager_closed)
    else elim (m.roots root) [ none ↦ start_root w root m | some n ↦ (m, ok n) ]

-- The subscription to a watch, under the lock of the watch: nothing if it is closed.
unfoldable pub subscribe_to : ℕ → Manager → Manager × Option ℕ
unfolding subscribe
subscribe_to n m =
    let (r, id) = subscribe (m.watches n) in (record m { watches = set_watch m.watches n r }, id)

abbrev pub is_watch : ℕ → Option ℕ → Bool
is_watch n none = false
is_watch n (some m) = eqb m n

-- removeRoot
unfoldable pub remove_root : ℕ → Manager → Manager
remove_root n m =
    let root = (m.watches n).root in
    if is_watch n (m.roots root) then record m { roots = set_root m.roots root none } else m

-- Manager.Close: the watches of the roots that there were are closed.
unfoldable pub close_manager : Manager → Manager
unfolding close
close_manager m = if m.closed then m else record m {
  closed = true;
  roots = λ _. none;
  watches =
      λ n. if is_watch n (m.roots (m.watches n).root) then close (m.watches n) else m.watches n;
}

abbrev pub turn_of : Manager × Result WatchError ℕ → Manager × Result WatchError (Option (ℕ × ℕ))
turn_of (m, err e) = (m, err e)
turn_of (m, ok n) =
    let (m', id) = subscribe_to n m in (m', ok (elim id [ none ↦ none | some i ↦ some (n, i) ]))

-- One turn of the loop of Subscribe: a subscription, an error, or nothing, after which it tries again.
unfoldable pub subscribe_turn :
    StartWorld → String → Manager → Manager × Result WatchError (Option (ℕ × ℕ))
unfolding find_root subscribe_to
subscribe_turn w root m = turn_of (find_root w root m)

find_root-at :
    (w : StartWorld) (root : String) (m : Manager) (o : Option ℕ)
    → m.closed ≡ false
    → m.roots root ≡ o
    → find_root w root m ≡ elim o [ none ↦ start_root w root m | some n ↦ (m, ok n) ]
unfolding find_root
find_root-at w root m o is_open e =
    if_both
      (λ (x : Manager × Result WatchError ℕ).
        x ≡ elim o [ none ↦ start_root w root m | some n ↦ (m, ok n) ])
      m.closed _ _ (λ y. absurd (ground (arith, y, is_open)))
      (λ _.
        ap
          (λ x. elim x as (λ _. Manager × Result WatchError ℕ) [
            | none ↦ start_root w root m
            | some n ↦ (m, ok n)
          ])
          e)

turn_of-live :
    (m : Manager) (n : ℕ)
    → (m.watches n).closed ≡ false
    → (turn_of (m, ok n)).1 ≡ ok (some (n, (m.watches n).next_id + 1))
unfolding subscribe_to subscribe
turn_of-live m n live =
    if_both
      (λ (x : RootWatcher × Option ℕ).
        ◌≡◌ {A = Result WatchError (Option (ℕ × ℕ))}
          (ok (elim x.1 [ none ↦ none | some i ↦ some (n, i) ]))
          (ok (some (n, (m.watches n).next_id + 1))))
      (m.watches n).closed _ _ (λ y. absurd (ground (arith, y, live))) (λ _. refl)

-- A turn of the loop of Subscribe on an open manager subscribes to the watch of the root, if that is open.
pub subscribe_turn-open :
    (w : StartWorld) (root : String) (m : Manager) (n : ℕ)
    → m.closed ≡ false
    → m.roots root ≡ some n
    → (m.watches n).closed ≡ false
    → (subscribe_turn w root m).1 ≡ ok (some (n, (m.watches n).next_id + 1))
unfolding subscribe_turn
subscribe_turn-open w root m n is_open e live =
    ap (λ x. (turn_of x).1) (find_root-at w root m (some n) is_open e) ∙ turn_of-live m n live

abbrev started : Manager → String → Manager
started m root = record m {
  roots = set_root m.roots root (some m.count);
  watches = set_watch m.watches m.count (new_root_watcher root);
  count = m.count + 1;
}

turn_of-started :
    (m : Manager) (root : String)
    → (turn_of (started m root, ok m.count)).1 ≡ ok (some (m.count, 1))
unfolding new_root_watcher
turn_of-started m root =
    let new : (started m root).watches m.count ≡ new_root_watcher root =
      if_both (λ x. x ≡ new_root_watcher root) (eqb m.count m.count) (new_root_watcher root)
        (m.watches m.count) (λ _. refl) (λ n. absurd (ground (arith, n))) in
    turn_of-live (started m root) m.count (ap (λ r. r.closed) new)
    ∙ ap (λ r. ok (some (m.count, r.next_id + 1))) new

start_root-good :
    (w : StartWorld) (root : String) (m : Manager)
    → (w.created && w.tree_added) ≡ true
    → start_root w root m ≡ (started m root, ok m.count)
unfolding start_root
start_root-good w root m good =
    if_both (λ (x : Manager × Result WatchError ℕ). x ≡ (started m root, ok m.count))
      (w.created && w.tree_added) _ _ (λ _. refl) (λ n. absurd (ground (arith, n, good)))

remove_root-registered :
    (m : Manager) (n : ℕ)
    → m.roots (m.watches n).root ≡ some n
    → remove_root n m ≡ record m { roots = set_root m.roots (m.watches n).root none }
unfolding remove_root
remove_root-registered m n e =
    if_both (λ x. x ≡ record m { roots = set_root m.roots (m.watches n).root none })
      (is_watch n (m.roots (m.watches n).root)) _ _ (λ _. refl)
      (λ k. absurd (ground (arith, sym k ∙ ap (is_watch n) e)))

-- If the watch of a root is closed, then a turn after its goroutine has removed it starts a new watch and subscribes to that, provided the operating system gives one.
pub subscribe_turn-remove_root :
    (w : StartWorld) (root : String) (m : Manager) (n : ℕ)
    → m.closed ≡ false
    → m.roots root ≡ some n
    → (m.watches n).root ≡ root
    → (w.created && w.tree_added) ≡ true
    → (subscribe_turn w root (remove_root n m)).1 ≡ ok (some (m.count, 1))
unfolding subscribe_turn
subscribe_turn-remove_root w root m n is_open e at good =
    let m1 : Manager = record m { roots = set_root m.roots (m.watches n).root none } in
    let gone : m1.roots root ≡ none =
      ap (λ b. if b then none else m.roots root) ((eq_iff root (m.watches n).root).1 (sym at)) in
    ap (λ x. (subscribe_turn w root x).1) (remove_root-registered m n (ap m.roots at ∙ e))
    ∙ ap (λ x. (turn_of x).1)
        (find_root-at w root m1 none is_open gone ∙ start_root-good w root m1 good)
    ∙ turn_of-started m1 root
