-- ===== src/Store/Order/Sorted.antt =====
-- The order in which the sessions of a workspace are listed.
use text.Mathlib.TextPositions.{eq_refl}
use term_bridge.Prelude.{
  ℕ, suc, String, Bool, true, false, ◌==◌, eq_iff, ◌≡◌, refl, sym, ap, subst, ◌∙◌, if◌then◌else◌,
  some, List, [], ◌∷◌, arith, Bool-cases, inl, inr,
}
use term_bridge.Prelude.Text.{contains_text}
use term_bridge.Store.Node.{SessionNode, node_ids}
use term_bridge.Store.Node.Children.{IsDistinct}
use term_bridge.Store.Order.{
  order_of, before_by, before_by_age, goes_before, insert_stable, sort_stable, node_key,
  order_session_nodes,
}

abbrev pub less_node : List String → SessionNode → SessionNode → Bool
less_node ids l r = goes_before ids (node_key l) (node_key r)

-- The ids that are in the second list, in the order of the first.
pick : List String → List String → List String
unfolding contains_text
pick [] s = []
pick (i ∷ ids) s = let rest = pick ids s in if contains_text s i then i ∷ rest else rest

pick_in :
    (ids s : List String) (x : String)
    → contains_text (pick ids s) x ≡ true
    → contains_text ids x ≡ true
unfolding pick contains_text
pick_in [] s x h = h
pick_in (i ∷ ids) s x h = ground (arith, h, pick_in ids s x)

known_order :
    (ids : List String) (x : String)
    → contains_text ids x ≡ true
    → (n : ℕ) × (order_of ids x ≡ some n)
unfolding contains_text order_of
known_order [] x h = ground (arith, h)
known_order (i ∷ ids) x h = elim (Bool-cases (i == x)) [
  | inl e ↦ (0, rw e)
  | inr n ↦ let (m, p) = known_order ids x (ground (arith, n, h)) in (suc m, rw (n, p))
]

apart :
    (ids : List String) (i x : String)
    → contains_text ids i ≡ false
    → contains_text ids x ≡ true
    → (i == x) ≡ false
apart ids i x n h = elim (Bool-cases (i == x)) [
  | inl e ↦ ground (arith, n, subst (λ y. contains_text ids y ≡ true) (sym ((eq_iff i x).0 e)) h)
  | inr m ↦ m
]

later_order :
    (i x : String) (ids : List String) (n : ℕ)
    → (i == x) ≡ false
    → order_of ids x ≡ some n
    → order_of (i ∷ ids) x ≡ some (suc n)
unfolding order_of
later_order i x ids n m p = rw (m, p)

before_by-suc :
    (m n : ℕ) (b : Bool) → before_by (some (suc m)) (some (suc n)) b ≡ before_by (some m) (some n) b
unfolding before_by
before_by-suc m n b = ground arith

-- An id in front does not change the order of two others.
less_later :
    (i : String) (ids : List String) (l r : SessionNode)
    → contains_text ids i ≡ false
    → contains_text ids l.id ≡ true
    → contains_text ids r.id ≡ true
    → less_node (i ∷ ids) l r ≡ less_node ids l r
unfolding goes_before
less_later i ids l r n hl hr =
    let (a, p) = known_order ids l.id hl in
    let (b, q) = known_order ids r.id hr in
    let age = before_by_age (node_key l) (node_key r) in
    ap (λ o. before_by o (order_of (i ∷ ids) r.id) age)
      (later_order i l.id ids a (apart ids i l.id n hl) p)
    ∙ ap (λ o. before_by (some (suc a)) o age) (later_order i r.id ids b (apart ids i r.id n hr) q)
    ∙ before_by-suc a b age
    ∙ ap (λ o. before_by o (some b) age) (sym p)
    ∙ ap (λ o. before_by (order_of ids l.id) o age) (sym q)

IsAllIn : List String → List SessionNode → Type 0
IsAllIn ids [] = Unit {0}
IsAllIn ids (c ∷ cs) = (contains_text ids c.id ≡ true) × IsAllIn ids cs

insert_later :
    (i : String) (ids : List String) (x : SessionNode) (cs : List SessionNode)
    → contains_text ids i ≡ false
    → contains_text ids x.id ≡ true
    → IsAllIn ids cs
    → insert_stable (less_node (i ∷ ids)) x cs ≡ insert_stable (less_node ids) x cs
unfolding insert_stable IsAllIn
insert_later i ids x [] n h a = refl
insert_later i ids x (c ∷ cs) n h a =
    ap (λ b. if b then c ∷ insert_stable (less_node (i ∷ ids)) x cs else x ∷ c ∷ cs)
      (less_later i ids c x n a.0 h)
    ∙ ap (λ r. if less_node ids c x then c ∷ r else x ∷ c ∷ cs) (insert_later i ids x cs n h a.1)

first_order : (i x : String) (ids : List String) → (i == x) ≡ true → order_of (i ∷ ids) x ≡ some 0
unfolding order_of
first_order i x ids e = rw e

before_by_first :
    (n : ℕ) (b : Bool)
    → (before_by (some 0) (some (suc n)) b ≡ true) × (before_by (some (suc n)) (some 0) b ≡ false)
unfolding before_by
before_by_first n b = ground arith

-- The id in front goes before the others.
less_first :
    (i : String) (ids : List String) (l r : SessionNode)
    → i ≡ l.id
    → contains_text ids i ≡ false
    → contains_text ids r.id ≡ true
    → (less_node (i ∷ ids) l r ≡ true) × (less_node (i ∷ ids) r l ≡ false)
unfolding goes_before
less_first i ids l r e n h =
    let (b, q) = known_order ids r.id h in
    let o = first_order i l.id ids ((eq_iff i l.id).1 e) in
    let p = later_order i r.id ids b (apart ids i r.id n h) q in
    (
      rw (o, p) (before_by_first b (before_by_age (node_key l) (node_key r))).0,
      rw (o, p) (before_by_first b (before_by_age (node_key r) (node_key l))).1,
    )

all_in :
    (ids : List String) (cs : List SessionNode)
    → ((x : String) → contains_text (node_ids cs) x ≡ true → contains_text ids x ≡ true)
    → IsAllIn ids cs
unfolding IsAllIn node_ids contains_text
all_in ids [] k = tt
all_in ids (c ∷ cs) k =
    (k c.id (ground (arith, eq_refl c.id)), all_in ids cs (λ x h. k x (ground (arith, h))))

picked-IsAllIn :
    (ids s : List String) (cs : List SessionNode) → node_ids cs ≡ pick ids s → IsAllIn ids cs
picked-IsAllIn ids s cs e =
    all_in ids cs (λ x h. pick_in ids s x (subst (λ l. contains_text l x ≡ true) e h))

-- Picking one more id that the list does not have, or has in front.
pick_skip :
    (ids s : List String) (x : String) → contains_text ids x ≡ false → pick ids (x ∷ s) ≡ pick ids s
unfolding pick contains_text
pick_skip [] s x n = refl
pick_skip (i ∷ ids) s x n =
    ground (arith, n, pick_skip ids s x (ground (arith, n)), eq_iff i x, eq_iff x i)

-- Inserting in front of what goes after.
insert_first :
    (less : SessionNode → SessionNode → Bool) (x : SessionNode) (cs : List SessionNode)
    → ((c : SessionNode) (rest : List SessionNode) → cs ≡ c ∷ rest → less c x ≡ false)
    → insert_stable less x cs ≡ x ∷ cs
unfolding insert_stable
insert_first less x [] h = refl
insert_first less x (c ∷ cs) h = rw (h c cs refl)

insert_next :
    (less : SessionNode → SessionNode → Bool) (x c : SessionNode) (cs : List SessionNode)
    → less c x ≡ true
    → insert_stable less x (c ∷ cs) ≡ c ∷ insert_stable less x cs
unfolding insert_stable
insert_next less x c cs h = rw h

pick_take :
    (i : String) (ids s : List String)
    → contains_text s i ≡ true
    → pick (i ∷ ids) s ≡ i ∷ pick ids s
unfolding pick
pick_take i ids s h = rw h

pick_leave :
    (i : String) (ids s : List String) → contains_text s i ≡ false → pick (i ∷ ids) s ≡ pick ids s
unfolding pick
pick_leave i ids s h = rw h

split_ids :
    (c : SessionNode) (cs : List SessionNode) (i : String) (l : List String)
    → node_ids (c ∷ cs) ≡ i ∷ l
    → (c.id ≡ i) × (node_ids cs ≡ l)
unfolding node_ids
split_ids c cs i l h = (ap (first_of "") h, ap rest_of h)
  where
    first_of : String → List String → String
    first_of z [] = z
    first_of z (x ∷ xs) = x

    rest_of : List String → List String
    rest_of [] = []
    rest_of (x ∷ xs) = xs

insert_front :
    (i : String) (ids s : List String) (x : SessionNode) (cs : List SessionNode)
    → i ≡ x.id
    → IsDistinct (i ∷ ids)
    → contains_text s x.id ≡ false
    → node_ids cs ≡ pick (i ∷ ids) s
    → node_ids (insert_stable (less_node (i ∷ ids)) x cs) ≡ pick (i ∷ ids) (x.id ∷ s)
unfolding node_ids contains_text IsAllIn
insert_front i ids s x cs p d n e =
    let q = e ∙ pick_leave i ids s (subst (λ y. contains_text s y ≡ false) (sym p) n) in
    let all = picked-IsAllIn ids s cs q in
    ap node_ids (
      insert_first (less_node (i ∷ ids)) x cs
        (λ c rest r. (less_first i ids x c p d.0 (subst (IsAllIn ids) r all).0).1))
    ∙ ap (λ l. x.id ∷ l) q
    ∙ ap (λ l. x.id ∷ l)
        (sym (pick_skip ids s x.id (subst (λ y. contains_text ids y ≡ false) p d.0)))
    ∙ ap (λ y. y ∷ pick ids (x.id ∷ s)) (sym p)
    ∙ sym (pick_take i ids (x.id ∷ s) (rw ((eq_iff x.id i).1 (sym p))))

pick_none : (ids : List String) → pick ids [] ≡ []
unfolding pick contains_text
pick_none [] = refl
pick_none (i ∷ ids) = pick_none ids

pick_whole :
    (ids s : List String)
    → ((x : String) → contains_text ids x ≡ true → contains_text s x ≡ true)
    → pick ids s ≡ ids
unfolding contains_text pick
pick_whole [] s k = refl
pick_whole (i ∷ ids) s k =
    pick_take i ids s (k i (ground (arith, eq_refl i)))
    ∙ ap (λ l. i ∷ l) (pick_whole ids s (λ x h. k x (ground (arith, h))))

insert_behind :
    (i : String) (ids s : List String) (x : SessionNode) (cs : List SessionNode)
    → contains_text ids i ≡ false
    → contains_text ids x.id ≡ true
    → contains_text s i ≡ true
    → node_ids cs ≡ i ∷ pick ids s
    → ((cs : List SessionNode)
        → node_ids cs ≡ pick ids s
        → node_ids (insert_stable (less_node ids) x cs) ≡ pick ids (x.id ∷ s))
    → node_ids (insert_stable (less_node (i ∷ ids)) x cs) ≡ pick (i ∷ ids) (x.id ∷ s)
unfolding node_ids contains_text
insert_behind i ids s x [] n later t q rest = ground (arith, q)
insert_behind i ids s x (c ∷ cs) n later t q rest =
    let (a, b) = split_ids c cs i (pick ids s) q in
    ap node_ids (insert_next (less_node (i ∷ ids)) x c cs (less_first i ids c x (sym a) n later).0)
    ∙ ap (λ y. y ∷ node_ids (insert_stable (less_node (i ∷ ids)) x cs)) a
    ∙ ap (λ l. i ∷ node_ids l) (insert_later i ids x cs n later (picked-IsAllIn ids s cs b))
    ∙ ap (λ l. i ∷ l) (rest cs b)
    ∙ sym (pick_take i ids (x.id ∷ s) (ground (arith, t)))

insert_pick :
    (ids s : List String) (x : SessionNode) (cs : List SessionNode)
    → IsDistinct ids
    → contains_text ids x.id ≡ true
    → contains_text s x.id ≡ false
    → node_ids cs ≡ pick ids s
    → node_ids (insert_stable (less_node ids) x cs) ≡ pick ids (x.id ∷ s)
unfolding contains_text
insert_pick [] s x cs d h n e = ground (arith, h)
insert_pick (i ∷ ids) s x cs d h n e = elim (Bool-cases (x.id == i)) [
  | inl y ↦ insert_front i ids s x cs (sym ((eq_iff x.id i).0 y)) d n e
  | inr m ↦ elim (Bool-cases (contains_text s i)) [
    | inl t ↦
        let later : contains_text ids x.id ≡ true =
          ground (arith, h, m, eq_iff i x.id, eq_iff x.id i) in
        insert_behind i ids s x cs d.0 later t (e ∙ pick_take i ids s t)
          (λ cs q. insert_pick ids s x cs d.1 later n q)
    | inr u ↦
        let later : contains_text ids x.id ≡ true =
          ground (arith, h, m, eq_iff i x.id, eq_iff x.id i) in
        let q = e ∙ pick_leave i ids s u in
        ap node_ids (insert_later i ids x cs d.0 later (picked-IsAllIn ids s cs q))
        ∙ insert_pick ids s x cs d.1 later n q
        ∙ sym (pick_leave i ids (x.id ∷ s) (rw m u))
  ]
]

sort_pick :
    (ids : List String) (cs : List SessionNode)
    → IsDistinct ids
    → IsDistinct (node_ids cs)
    → ((x : String) → contains_text (node_ids cs) x ≡ true → contains_text ids x ≡ true)
    → node_ids (sort_stable (less_node ids) cs) ≡ pick ids (node_ids cs)
unfolding sort_stable node_ids contains_text
sort_pick ids [] d e k = sym (pick_none ids)
sort_pick ids (c ∷ cs) d e k =
    insert_pick ids (node_ids cs) c (sort_stable (less_node ids) cs) d
      (k c.id (ground (arith, eq_refl c.id))) e.0
      (sort_pick ids cs d e.1 (λ x h. k x (ground (arith, h))))

-- The sessions of a workspace are listed in the order of its session ids, if those are the ids of
-- its sessions, and no id is there twice on either side.
pub order_session_nodes_follow :
    (children : List SessionNode) (ids : List String)
    → IsDistinct ids
    → IsDistinct (node_ids children)
    → ((x : String) → contains_text ids x ≡ contains_text (node_ids children) x)
    → node_ids (order_session_nodes children ids) ≡ ids
unfolding order_session_nodes
order_session_nodes_follow children ids d e k =
    sort_pick ids children d e (λ x h. k x ∙ h)
    ∙ pick_whole ids (node_ids children) (λ x h. sym (k x) ∙ h)
