-- ===== src/Store/Node/Children.antt =====
-- What the changes of a workspace's nodes do to what is found in them.
use text.Mathlib.TextPositions.{eq_refl}
use term_bridge.Prelude.{
  String, true, false, ◌==◌, eq_iff, ◌≡◌, refl, sym, ap, subst, ◌∙◌, if◌then◌else◌, Option, none,
  some, List, [], ◌∷◌, ◌++◌, if_both, arith, Bool-cases, inl, inr,
}
use term_bridge.Prelude.Text.{contains_text, contains-append}
use term_bridge.Store.Node.{
  SessionNode, Workspace, find_node, node_ids, update_node, replace_node, replaced_or_added,
  upsert_session_node, keep_run, remove_node, remove_string,
}

-- Nodes that differ at one id only.
abbrev pub IsSameBut : String → List SessionNode → List SessionNode → Type 0
IsSameBut s cs cs' = (t : String) → (s == t) ≡ false → find_node cs' t ≡ find_node cs t

-- The two outcomes of the loop of updateSessionNode.
pub data IsChangedAt (change : SessionNode → SessionNode) (cs : List SessionNode) (s : String)
    : Type 0 where
  missing : update_node change cs s ≡ none → find_node cs s ≡ none → IsChangedAt change cs s
  changed :
      (cs' : List SessionNode) (c : SessionNode)
      → update_node change cs s ≡ some (cs', change c)
      → find_node cs s ≡ some c
      → find_node cs' s ≡ some (change c)
      → IsSameBut s cs cs'
      → node_ids cs' ≡ node_ids cs
      → IsChangedAt change cs s

other_id : (x s t : String) → (x == s) ≡ true → (s == t) ≡ false → (x == t) ≡ false
other_id x s t e n = subst (λ y. (y == t) ≡ false) (sym ((eq_iff x s).0 e)) n

pub update_node-IsChangedAt :
    (change : SessionNode → SessionNode)
    → ((c : SessionNode) → (change c).id ≡ c.id)
    → (cs : List SessionNode) (s : String) → IsChangedAt change cs s
unfolding update_node find_node node_ids
update_node-IsChangedAt change keeps [] s = missing refl refl
update_node-IsChangedAt change keeps (c ∷ cs) s = elim (Bool-cases (c.id == s)) [
  | inl e ↦
      changed (change c ∷ cs) c (rw e) (rw e) (rw (keeps c, e))
        (λ t n. let m = other_id c.id s t e n in rw (keeps c, m)) (rw (keeps c))
  | inr n ↦ elim (update_node-IsChangedAt change keeps cs s) [
    | missing a f ↦ missing (rw (n, a)) (rw (n, f))
    | changed cs' c' a f f' o i ↦
        changed (c ∷ cs') c' (rw (n, a)) (rw (n, f)) (rw (n, f'))
          (λ t m. ap (λ r. if c.id == t then some c else r) (o t m)) (ap (λ l. c.id ∷ l) i)
  ]
]

-- The two outcomes of the loop of upsertSessionNode.
pub data IsPutAt (cs : List SessionNode) (child : SessionNode) : Type 0 where
  missing : replace_node cs child ≡ none → find_node cs child.id ≡ none → IsPutAt cs child
  replaced :
      (cs' : List SessionNode) (c : SessionNode)
      → replace_node cs child ≡ some cs'
      → find_node cs child.id ≡ some c
      → find_node cs' child.id ≡ some (keep_run c child)
      → IsSameBut child.id cs cs'
      → node_ids cs' ≡ node_ids cs
      → IsPutAt cs child

pub replace_node-IsPutAt : (cs : List SessionNode) (child : SessionNode) → IsPutAt cs child
unfolding replace_node find_node node_ids
replace_node-IsPutAt [] child = missing refl refl
replace_node-IsPutAt (c ∷ cs) child = elim (Bool-cases (c.id == child.id)) [
  | inl e ↦
      replaced (keep_run c child ∷ cs) c (rw e) (rw e) (rw (eq_refl child.id))
        (λ t n. let m = other_id c.id child.id t e n in rw (n, m))
        (ap (λ i. i ∷ node_ids cs) (sym ((eq_iff c.id child.id).0 e)))
  | inr n ↦ elim (replace_node-IsPutAt cs child) [
    | missing a f ↦ missing (rw (n, a)) (rw (n, f))
    | replaced cs' c' a f f' o i ↦
        replaced (c ∷ cs') c' (rw (n, a)) (rw (n, f)) (rw (n, f'))
          (λ t m. ap (λ r. if c.id == t then some c else r) (o t m)) (ap (λ l. c.id ∷ l) i)
  ]
]

pub find_node-append :
    (cs : List SessionNode) (child : SessionNode)
    → find_node cs child.id ≡ none
    → (find_node (cs ++ child ∷ []) child.id ≡ some child)
      × IsSameBut child.id cs (cs ++ child ∷ [])
unfolding find_node
find_node-append [] child h = (rw (eq_refl child.id), λ t n. rw n)
find_node-append (c ∷ cs) child h = elim (Bool-cases (c.id == child.id)) [
  | inl e ↦ ground (arith, e, h)
  | inr n ↦
      let (f, o) = find_node-append cs child (ground (arith, n, h)) in
      (rw (n, f), λ t m. ap (λ r. if c.id == t then some c else r) (o t m))
]

-- No id twice.
abbrev pub IsDistinct : List String → Type 0
IsDistinct [] = Unit {0}
IsDistinct (t ∷ ts) = (contains_text ts t ≡ false) × IsDistinct ts

pub find_node-absent :
    (cs : List SessionNode) (s : String)
    → contains_text (node_ids cs) s ≡ false
    → find_node cs s ≡ none
unfolding contains_text node_ids find_node
find_node-absent [] s h = refl
find_node-absent (c ∷ cs) s h = ground (arith, find_node-absent cs s (ground (arith, h)), h)

pub find_node-present :
    (cs : List SessionNode) (s : String)
    → find_node cs s ≡ none
    → contains_text (node_ids cs) s ≡ false
unfolding contains_text node_ids find_node
find_node-present [] s h = refl
find_node-present (c ∷ cs) s h = elim (Bool-cases (c.id == s)) [
  | inl e ↦ ground (arith, e, h)
  | inr n ↦ ground (arith, n, find_node-present cs s (ground (arith, n, h)))
]

pub remove_node-find :
    (cs : List SessionNode) (s : String)
    → IsDistinct (node_ids cs)
    → (find_node (remove_node cs s) s ≡ none) × IsSameBut s cs (remove_node cs s)
unfolding remove_node find_node node_ids
remove_node-find [] s d = (refl, λ t n. refl)
remove_node-find (c ∷ cs) s d = elim (Bool-cases (c.id == s)) [
  | inl e ↦ (
    subst (λ l. find_node l s ≡ none) (sym (first_gone c cs s e))
        (find_node-absent cs s
          (subst (λ x. contains_text (node_ids cs) x ≡ false) ((eq_iff c.id s).0 e) d.0)),
    λ t n. let m = other_id c.id s t e n in rw (e, m),
  )
  | inr n ↦
      let (f, o) = remove_node-find cs s d.1 in
      (rw (n, n, f), λ t m. rw n (ap (λ r. if c.id == t then some c else r) (o t m)))
]
  where
    first_gone :
        (c : SessionNode) (cs : List SessionNode) (s : String)
        → (c.id == s) ≡ true
        → remove_node (c ∷ cs) s ≡ cs
    first_gone c cs s e = rw e

-- removeSessionNode and removeString take the same id out of the ids.
pub node_ids-remove_node :
    (cs : List SessionNode) (s : String)
    → node_ids (remove_node cs s) ≡ remove_string (node_ids cs) s
unfolding remove_node remove_string node_ids
node_ids-remove_node [] s = refl
node_ids-remove_node (c ∷ cs) s = elim (Bool-cases (c.id == s)) [
  | inl e ↦ rw e
  | inr n ↦ rw n (ap (λ l. c.id ∷ l) (node_ids-remove_node cs s))
]

-- A saved session keeps the state and the run of the node that was there.
abbrev pub kept : Option SessionNode → SessionNode → SessionNode
kept none new = new
kept (some old) new = record new { state = old.state; current_run = old.current_run }

pub append-IsDistinct :
    (xs : List String) (y : String)
    → IsDistinct xs
    → contains_text xs y ≡ false
    → IsDistinct (xs ++ y ∷ [])
unfolding contains_text
append-IsDistinct [] y d n = (refl, tt)
append-IsDistinct (x ∷ xs) y d n = (
  ground (arith, contains-append xs y x, eq_iff x y, eq_iff y x, n, d.0),
  append-IsDistinct xs y d.1 (ground (arith, n)),
)

node_ids-append :
    (cs : List SessionNode) (c : SessionNode) → node_ids (cs ++ c ∷ []) ≡ node_ids cs ++ c.id ∷ []
unfolding node_ids
node_ids-append [] c = refl
node_ids-append (x ∷ cs) c = ap (λ l. x.id ∷ l) (node_ids-append cs c)

remove-absent :
    (xs : List String) (x y : String)
    → contains_text xs y ≡ false
    → contains_text (remove_string xs x) y ≡ false
unfolding contains_text remove_string
remove-absent [] x y n = refl
remove-absent (z ∷ xs) x y n = ground (arith, n, remove-absent xs x y (ground (arith, n)))

pub remove-IsDistinct :
    (xs : List String) (x : String) → IsDistinct xs → IsDistinct (remove_string xs x)
unfolding remove_string
remove-IsDistinct [] x d = d
remove-IsDistinct (z ∷ xs) x d =
    if_both (λ (l : List String). IsDistinct l) (z == x) _ _ (λ _. d.1)
      (λ _. (remove-absent xs x z d.0, remove-IsDistinct xs x d.1))

-- What upsertSessionNode makes of a workspace.
pub record IsPutIn (ws : Workspace) (n : SessionNode) (new : Workspace) : Type 0 where
  pub same_id : new.id ≡ ws.id
  pub distinct : IsDistinct (node_ids new.children)
  pub here : find_node new.children n.id ≡ some (kept (find_node ws.children n.id) n)
  pub elsewhere : IsSameBut n.id ws.children new.children

pub upsert_session_node-IsPutIn :
    (ws : Workspace) (n : SessionNode)
    → IsDistinct (node_ids ws.children)
    → IsPutIn ws n (upsert_session_node ws n)
unfolding upsert_session_node replaced_or_added
upsert_session_node-IsPutIn ws n d = elim (replace_node-IsPutAt ws.children n) [
  | missing a f ↦
      subst (λ o. IsPutIn ws n (replaced_or_added ws n o)) (sym a)
        (let (h, o) = find_node-append ws.children n f in
          record {
            same_id = refl;
            distinct = subst IsDistinct (sym (node_ids-append ws.children n)) (
                append-IsDistinct (node_ids ws.children) n.id d
                  (find_node-present ws.children n.id f));
            here = h ∙ ap (λ o. some (kept o n)) (sym f);
            elsewhere = o;
          })
  | replaced cs' c a f f' o i ↦
      subst (λ o. IsPutIn ws n (replaced_or_added ws n o)) (sym a)
        (record {
          same_id = refl;
          distinct = subst IsDistinct (sym i) d;
          here = f' ∙ ap (λ o. some (kept o n)) (sym f);
          elsewhere = o;
        })
]
