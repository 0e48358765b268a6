-- ===== src/Watch.antt =====
-- internal/agent/infrastructure/workspacewatch/manager.go, with the changes of
-- internal/agent/model/task/file/watch.go: the watch of one workspace and its subscriptions. The
-- channel of a subscription is the list of its events, and what its reader has taken is kept beside
-- it. Which events a reader takes while the watch drains its channel is an argument: the two receive
-- in any order, so the reader may get any of the events, in their order, and the others are dropped.
pub mod Run
pub mod Streams
pub mod Safety
pub mod Steps
pub mod Readers
pub mod Manager
mod Tests
use term_bridge.Prelude.{
  ℕ, ◌+◌, String, Bool, true, false, not, ◌&&◌, ◌||◌, ◌==◌, leb, eqb, if◌then◌else◌, Option, none,
  some, List, [], ◌∷◌, ◌++◌, length, take, drop, Result, ok, err,
}
use term_bridge.Prelude.Text.{contains}
use term_bridge.File.{PathLib, PathError, parse_relative_path, is_required}
use term_bridge.Git.{ends_with}

pub data ChangeKind : Type 0 where
  added updated deleted renamed rescan_required : ChangeKind

pub record WorkspaceChange : Type 0 where
  pub sequence : ℕ
  pub kind : ChangeKind
  pub path : String

pub record Subscription : Type 0 where
  pub id : ℕ
  pub events : List WorkspaceChange
  pub taken : List WorkspaceChange

-- `ended` are the subscriptions whose channel is closed; what is in it can still be read.
pub record RootWatcher : Type 0 where
  pub root : String
  pub next_id : ℕ
  pub sequence : ℕ
  pub subscribers : List Subscription
  pub ended : List Subscription
  pub closed : Bool

-- Config.Validate
unfoldable pub validate : ℕ → Bool
validate subscriber_queue_size = leb 1 subscriber_queue_size

unfoldable pub new_root_watcher : String → RootWatcher
new_root_watcher root = record {
  root = root;
  next_id = 0;
  sequence = 0;
  subscribers = [];
  ended = [];
  closed = false;
}

unfoldable pub subscribe : RootWatcher → RootWatcher × Option ℕ
subscribe r = if r.closed then (r, none) else (
  record r {
    next_id = r.next_id + 1;
    subscribers = record { id = r.next_id + 1; events = []; taken = [] } ∷ r.subscribers;
  },
  some (r.next_id + 1),
)

abbrev pub is_full : ℕ → Subscription → Bool
is_full size s = leb size (length s.events)

unfoldable pub send : WorkspaceChange → Subscription → Subscription
send c s = record s { events = s.events ++ c ∷ [] }

-- The reader of a subscription takes events.
unfoldable pub take_events : ℕ → Subscription → Subscription
take_events k s = record s { taken = s.taken ++ take k s.events; events = drop k s.events }

-- The events that a reader receives, by who receives each of them first; it gets none of the rest.
unfoldable pub picked : List Bool → List WorkspaceChange → List WorkspaceChange
picked [] cs = []
picked (b ∷ bs) [] = []
picked (b ∷ bs) (c ∷ cs) = let rest = picked bs cs in if b then c ∷ rest else rest

-- Each event is received by the reader or dropped, and one that tells of it is put in their place.
unfoldable pub replace_events : WorkspaceChange → (ℕ → List Bool) → Subscription → Subscription
unfolding picked send
replace_events c reads s =
    send c (record s { taken = s.taken ++ picked (reads s.id) s.events; events = [] })

unfoldable pub replace_all :
    WorkspaceChange → (ℕ → List Bool) → List Subscription → List Subscription → List Subscription
unfolding replace_events
replace_all c reads [] ended = ended
replace_all c reads (s ∷ ss) ended = replace_events c reads s ∷ replace_all c reads ss ended

abbrev pub rescan : ℕ → WorkspaceChange
rescan n = record { sequence = n; kind = rescan_required; path = "" }

-- publishRescanAndClose; the lock is held.
unfoldable pub publish_rescan_and_close : (ℕ → List Bool) → RootWatcher → RootWatcher
unfolding replace_all
publish_rescan_and_close reads r = if r.closed then r else record r {
  sequence = r.sequence + 1;
  ended = replace_all (rescan (r.sequence + 1)) reads r.subscribers r.ended;
  subscribers = [];
  closed = true;
}

-- A change is sent to each subscription in turn; none after the first whose channel is full.
unfoldable pub send_all : ℕ → WorkspaceChange → List Subscription → List Subscription × Bool
unfolding send
send_all size c [] = ([], true)
send_all size c (s ∷ ss) =
    let (rest, sent) = send_all size c ss in
    if is_full size s then (s ∷ ss, false) else (send c s ∷ rest, sent)

unfoldable pub publish : ℕ → (ℕ → List Bool) → ChangeKind → String → RootWatcher → RootWatcher
unfolding send_all publish_rescan_and_close
publish size reads kind path r =
    if r.closed
    then r
    else (let (ss, sent) =
          send_all size (record { sequence = r.sequence + 1; kind = kind; path = path })
            r.subscribers in
        let r' = record r { sequence = r.sequence + 1; subscribers = ss } in
        if sent then r' else publish_rescan_and_close reads r')

-- The subscription with an id, and the others.
unfoldable pub without : ℕ → List Subscription → List Subscription
without id [] = []
without id (s ∷ ss) = let rest = without id ss in if eqb s.id id then rest else s ∷ rest

unfoldable pub only : ℕ → List Subscription → List Subscription
only id [] = []
only id (s ∷ ss) = let rest = only id ss in if eqb s.id id then s ∷ rest else rest

abbrev pub is_empty : List Subscription → Bool
is_empty [] = true
is_empty (s ∷ ss) = false

-- removeSubscriber: the last one that leaves closes the watch.
unfoldable pub remove_subscriber : ℕ → RootWatcher → RootWatcher
unfolding without only
remove_subscriber id r = if is_empty (only id r.subscribers) then r else record r {
  subscribers = without id r.subscribers;
  ended = only id r.subscribers ++ r.ended;
  closed = is_empty (without id r.subscribers) || r.closed;
}

unfoldable pub close : RootWatcher → RootWatcher
close r =
    if r.closed
    then r
    else record r { closed = true; subscribers = []; ended = r.subscribers ++ r.ended }

-- A receive from the channels of a subscription.
unfoldable pub receive_event : ℕ → List Subscription → List Subscription
unfolding take_events
receive_event id [] = []
receive_event id (s ∷ ss) = (if eqb s.id id then take_events 1 s else s) ∷ receive_event id ss

unfoldable pub receive_by : ℕ → RootWatcher → RootWatcher
unfolding receive_event
receive_by id r = record r {
  subscribers = receive_event id r.subscribers;
  ended = receive_event id r.ended;
}
