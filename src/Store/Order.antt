-- ===== src/Store/Order.antt =====
-- The orders of store.go: completeOrderedIds, orderMap, and the sorting of workspaces and sessions.
-- sort.SliceStable is an insertion sort here: it keeps what compares as equal in place.
pub mod Complete
pub mod Sorted
use Prim.Native.Nat.{Ordering}
use Prim.Native.String.{compare}
use term_bridge.Prelude.{
  ℕ, suc, String, Bool, true, false, not, ◌&&◌, ◌||◌, ◌==◌, ltb, eqb, if◌then◌else◌, Option, none,
  some, List, [], ◌∷◌, ◌++◌, Result, ok, err,
}
use term_bridge.Prelude.Text.{contains_text}
use term_bridge.Store.Node.{Workspace, SessionNode}

-- The errors name the id.
pub data OrderError : Type 0 where
  duplicate unknown : String → OrderError

-- The loop over the given ids, with those that it has seen, which are also the result so far.
unfoldable pub take_ids : List String → List String → List String → Result OrderError (List String)
unfolding contains_text
take_ids known seen [] = ok seen
take_ids known seen (id ∷ ids) =
    let rest = take_ids known (seen ++ id ∷ []) ids in
    if contains_text seen id
    then err (duplicate id)
    else if not (contains_text known id)
    then err (unknown id)
    else rest

-- The values that the ids do not name follow in their order.
unfoldable pub others : List String → List String → List String
unfolding contains_text
others seen [] = []
others seen (id ∷ ids) =
    let rest = others seen ids in if contains_text seen id then rest else id ∷ rest

abbrev pub append_others :
    List String → Result OrderError (List String) → Result OrderError (List String)
append_others known (err e) = err e
append_others known (ok ordered) = ok (ordered ++ others ordered known)

-- `known` are the ids of the values.
unfoldable pub complete_ordered_ids : List String → List String → Result OrderError (List String)
unfolding take_ids others
complete_ordered_ids ids known = append_others known (take_ids known [] ids)

-- The index of the first occurrence of an id, which is what orderMap holds for it.
unfoldable pub order_of : List String → String → Option ℕ
order_of [] id = none
order_of (x ∷ xs) id =
    let rest = order_of xs id in
    if x == id then some 0 else elim rest [ none ↦ none | some n ↦ some (suc n) ]

abbrev pub less_text : String → String → Bool
less_text a b = elim (compare a b) [ Ordering.lt ↦ true | _ ↦ false ]

-- What the sorting looks at.
pub record SortKey : Type 0 where
  pub id : String
  pub name : String
  pub created_at : ℕ

abbrev pub before_by_age : SortKey → SortKey → Bool
before_by_age l r =
    if not (eqb l.created_at r.created_at)
    then ltb l.created_at r.created_at
    else if not (l.name == r.name)
    then less_text l.name r.name
    else less_text l.id r.id

unfoldable pub before_by : Option ℕ → Option ℕ → Bool → Bool
before_by none none by_age = by_age
before_by none (some n) by_age = false
before_by (some m) none by_age = true
before_by (some m) (some n) by_age = if not (eqb m n) then ltb m n else by_age

unfoldable pub goes_before : List String → SortKey → SortKey → Bool
unfolding before_by order_of
goes_before ids l r = before_by (order_of ids l.id) (order_of ids r.id) (before_by_age l r)

module _ {A : Type 0} (less : A → A → Bool) where
  unfoldable pub insert_stable : A → List A → List A
  insert_stable x [] = x ∷ []
  insert_stable x (y ∷ ys) =
      let rest = insert_stable x ys in if less y x then y ∷ rest else x ∷ y ∷ ys

  unfoldable pub sort_stable : List A → List A
  unfolding insert_stable
  sort_stable [] = []
  sort_stable (x ∷ xs) = insert_stable x (sort_stable xs)

abbrev pub node_key : SessionNode → SortKey
node_key c = record { id = c.id; name = c.name; created_at = c.created_at }

abbrev pub workspace_key : Workspace → SortKey
workspace_key w = record { id = w.id; name = w.name; created_at = w.created_at }

unfoldable pub order_session_nodes : List SessionNode → List String → List SessionNode
unfolding sort_stable goes_before
order_session_nodes children ids =
    sort_stable (λ l r. goes_before ids (node_key l) (node_key r)) children

unfoldable pub sort_workspaces : List Workspace → List String → List Workspace
unfolding sort_stable goes_before
sort_workspaces values ids =
    sort_stable (λ l r. goes_before ids (workspace_key l) (workspace_key r)) values
