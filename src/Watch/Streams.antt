-- ===== src/Watch/Streams.antt =====
-- What a subscription's reader gets, in the order in which it gets it.
use term_bridge.Prelude.{
  ℕ, ◌+◌, ◌<◌, ◌≤◌, ◌≡◌, refl, sym, ap, subst, ◌∙◌, ◌⊎◌, inl, inr, Bool, true, false, List, [], ◌∷◌,
  ◌++◌, append_assoc, take, drop, take-append-drop, arith, if_both,
}
use term_bridge.Watch.{
  ChangeKind, added, updated, deleted, renamed, rescan_required, WorkspaceChange, Subscription,
  send, picked, take_events, replace_events, rescan,
}

abbrev pub is_change : ChangeKind → Bool
is_change rescan_required = false
is_change added = true
is_change updated = true
is_change deleted = true
is_change renamed = true

-- Changes that are numbered from one number, exclusively, up to another, without a gap.
unfoldable pub Numbered : ℕ → List WorkspaceChange → ℕ → Type 0
Numbered n [] m = n ≡ m
Numbered n (c ∷ cs) m = (c.sequence ≡ n + 1) × (is_change c.kind ≡ true) × Numbered (n + 1) cs m

pub Numbered-append :
    (n m : ℕ) (cs : List WorkspaceChange) (c : WorkspaceChange)
    → Numbered n cs m
    → c.sequence ≡ m + 1
    → is_change c.kind ≡ true
    → Numbered n (cs ++ c ∷ []) (m + 1)
unfolding Numbered
Numbered-append n m [] c h e k = (e ∙ ap (λ x. x + 1) (sym h), k, ap (λ x. x + 1) h)
Numbered-append n m (d ∷ cs) c (a, b, h) e k = (a, b, Numbered-append (n + 1) m cs c h e k)

pub Numbered-le : (n m : ℕ) (cs : List WorkspaceChange) → Numbered n cs m → n ≤ m
unfolding Numbered
Numbered-le n m [] h = ground (arith, h)
Numbered-le n m (c ∷ cs) (_, _, h) = ground (arith, Numbered-le (n + 1) m cs h)

-- Changes whose numbers are above one number, rise, and end at another at most.
unfoldable pub Rising : ℕ → List WorkspaceChange → ℕ → Type 0
Rising n [] m = n ≤ m
Rising n (c ∷ cs) m = (n < c.sequence) × (is_change c.kind ≡ true) × Rising c.sequence cs m

Rising-lower : (j n m : ℕ) (cs : List WorkspaceChange) → j ≤ n → Rising n cs m → Rising j cs m
unfolding Rising
Rising-lower j n m [] l h = ground (arith, l, h)
Rising-lower j n m (c ∷ cs) l (a, k, h) = (ground (arith, l, a), k, h)

picked-Rising :
    (n m : ℕ) (bs : List Bool) (cs : List WorkspaceChange)
    → Numbered n cs m
    → Rising n (picked bs cs) m
unfolding picked Numbered Rising
picked-Rising n m [] cs h = Numbered-le n m cs h
picked-Rising n m (b ∷ bs) [] h = ground (arith, h)
picked-Rising n m (b ∷ bs) (c ∷ cs) (a, k, h) =
    let rest = picked-Rising (n + 1) m bs cs h in
    if_both (λ (x : List WorkspaceChange). Rising n x m) b (c ∷ picked bs cs) (picked bs cs)
      (λ _. (ground (arith, a), k, subst (λ x. Rising x (picked bs cs) m) (sym a) rest))
      (λ _. Rising-lower n (n + 1) m (picked bs cs) (omega arith) rest)

-- What is left of numbered changes when some of the last ones are taken out.
pub Numbered-picked :
    (n m : ℕ) (bs : List Bool) (cs ds : List WorkspaceChange)
    → Numbered n (cs ++ ds) m
    → Rising n (cs ++ picked bs ds) m
unfolding Numbered Rising
Numbered-picked n m bs [] ds h = picked-Rising n m bs ds h
Numbered-picked n m bs (c ∷ cs) ds (a, k, h) = (
  ground (arith, a),
  k,
  subst (λ x. Rising x (cs ++ picked bs ds) m) (sym a) (Numbered-picked (n + 1) m bs cs ds h),
)

-- What has been taken from a channel, and what is in it.
unfoldable pub stream : Subscription → List WorkspaceChange
stream s = s.taken ++ s.events

-- Every change up to a number, from when the subscription began.
unfoldable pub IsComplete : ℕ → Subscription → Type 0
unfolding Numbered stream
IsComplete m s = (n : ℕ) × Numbered n (stream s) m

-- Every change up to some number; or changes in their order, of which some may be missing, and then one event that asks for a new scan and is the last.
abbrev pub IsSound : List WorkspaceChange → Type 0
IsSound xs =
    ((m n : ℕ) × Numbered n xs m)
    ⊎ ((cs : List WorkspaceChange) × (m n k : ℕ) × (xs ≡ cs ++ rescan k ∷ [])
        × Rising n cs m
        × (m < k))

unfoldable pub IsEnded : Subscription → Type 0
unfolding stream
IsEnded s = IsSound (stream s)

pub stream-take_events : (k : ℕ) (s : Subscription) → stream (take_events k s) ≡ stream s
unfolding stream take_events
stream-take_events k s =
    append_assoc s.taken (take k s.events) (drop k s.events)
    ∙ ap (λ x. s.taken ++ x) (take-append-drop k s.events)

pub take_events-IsComplete :
    (m k : ℕ) (s : Subscription) → IsComplete m s → IsComplete m (take_events k s)
unfolding IsComplete
take_events-IsComplete m k s (n, h) =
    (n, subst (λ x. Numbered n x m) (sym (stream-take_events k s)) h)

pub take_events-IsEnded : (k : ℕ) (s : Subscription) → IsEnded s → IsEnded (take_events k s)
unfolding IsEnded
take_events-IsEnded k s (inl (m, n, h)) =
    inl (m, n, subst (λ x. Numbered n x m) (sym (stream-take_events k s)) h)
take_events-IsEnded k s (inr (cs, m, n, j, e, h, l)) =
    inr (cs, m, n, j, stream-take_events k s ∙ e, h, l)

pub send-IsComplete :
    (m : ℕ) (c : WorkspaceChange) (s : Subscription)
    → c.sequence ≡ m + 1
    → is_change c.kind ≡ true
    → IsComplete m s
    → IsComplete (m + 1) (send c s)
unfolding IsComplete send stream
send-IsComplete m c s e k (n, h) = (
  n,
  subst (λ x. Numbered n x (m + 1)) (append_assoc s.taken s.events (c ∷ []))
      (Numbered-append n m (s.taken ++ s.events) c h e k),
)

pub replace_events-IsEnded :
    (m k : ℕ) (reads : ℕ → List Bool) (s : Subscription)
    → IsComplete m s
    → m < k
    → IsEnded (replace_events (rescan k) reads s)
unfolding IsComplete IsEnded replace_events send stream
replace_events-IsEnded m k reads s (n, h) l = inr (
  s.taken ++ picked (reads s.id) s.events,
  m,
  n,
  k,
  refl,
  Numbered-picked n m (reads s.id) s.taken s.events h,
  l,
)
