-- ===== src/Quota/Limit.antt =====
-- The counter tells how many terminals are attached, and no limit is passed.
use text.Mathlib.TextPositions.{eq_refl}
use term_bridge.Prelude.{
  ℕ, suc, ◌-◌, leb, if◌then◌else◌, Bool, true, false, ◌≤◌, String, eq_iff, ◌≡◌, refl, sym, subst,
  ◌↔◌, Result, ok, err, ℤ, pos, negsuc, arith, List, [], ◌∷◌, All,
}
use term_bridge.Quota.{
  AttachCounter, QuotaError, new_attach_counter, or_local, set_usage, try_acquire, release,
  usage_of,
}

-- What the handlers of terminals ask of the counter: each attach under the limit that it has read,
-- and one release when it is over.
pub data Call : Type 0 where
  acquire : String → ℤ → Call
  give_back : String → Call

-- The counter, and how many terminals each subject has attached.
pub record Attached : Type 0 where
  pub counter : AttachCounter
  pub terminals : String → ℕ

abbrev pub nothing_attached : Attached
nothing_attached = record { counter = new_attach_counter; terminals = λ s. 0 }

abbrev pub is_granted : Result QuotaError (Unit {0}) → Bool
is_granted (ok _) = true
is_granted (err _) = false

-- handleTerminalWS and bridgeTerminalStream: a terminal is attached where the acquire succeeds, and
-- only one that is attached is released.
unfoldable pub run_call : Call → Attached → Attached
unfolding set_usage try_acquire release
run_call (acquire s limit) a = record {
  counter = (try_acquire a.counter s limit).0;
  terminals =
      if is_granted (try_acquire a.counter s limit).1
      then set_usage a.terminals (or_local s) (suc (a.terminals (or_local s)))
      else a.terminals;
}
run_call (give_back s) a =
    if leb 1 (a.terminals (or_local s))
    then record {
      counter = release a.counter s;
      terminals = set_usage a.terminals (or_local s) (a.terminals (or_local s) - 1);
    }
    else a

abbrev pub run_calls : List Call → Attached → Attached
run_calls [] a = a
run_calls (c ∷ calls) a = run_calls calls (run_call c a)

-- The limits of the calls are at most a number.
abbrev pub IsUnder : ℕ → Call → Type 0
IsUnder n (acquire s (pos limit)) = limit ≤ n
IsUnder n (acquire s (negsuc limit)) = Unit {0}
IsUnder n (give_back s) = Unit {0}

-- The counter tells how many terminals each subject has attached.
abbrev pub IsCounted : Attached → Type 0
IsCounted a = (t : String) → a.counter.usage t ≡ a.terminals t

acquire-IsCounted :
    (s : String) (limit : ℤ) (a : Attached) → IsCounted a → IsCounted (run_call (acquire s limit) a)
unfolding run_call try_acquire set_usage
acquire-IsCounted s (pos limit) a h t = ground (arith, h t, h (or_local s))
acquire-IsCounted s (negsuc limit) a h t = ground (arith, h t, h (or_local s))

give_back-IsCounted :
    (s : String) (a : Attached) → IsCounted a → IsCounted (run_call (give_back s) a)
unfolding run_call release set_usage
give_back-IsCounted s a h t = ground (arith, h t, h (or_local s))

run_call-IsCounted : (c : Call) (a : Attached) → IsCounted a → IsCounted (run_call c a)
run_call-IsCounted (acquire s limit) a h = acquire-IsCounted s limit a h
run_call-IsCounted (give_back s) a h = give_back-IsCounted s a h

run-IsCounted : (calls : List Call) (a : Attached) → IsCounted a → IsCounted (run_calls calls a)
run-IsCounted [] a h = h
run-IsCounted (c ∷ calls) a h = run-IsCounted calls (run_call c a) (run_call-IsCounted c a h)

-- No subject has more terminals attached than a number.
abbrev pub IsWithin : ℕ → Attached → Type 0
IsWithin n a = (t : String) → a.terminals t ≤ n

acquire-IsWithin :
    (n : ℕ) (s : String) (limit : ℤ) (a : Attached)
    → IsUnder n (acquire s limit)
    → IsCounted a
    → IsWithin n a
    → IsWithin n (run_call (acquire s limit) a)
unfolding run_call try_acquire set_usage
acquire-IsWithin n s (pos limit) a u c h t = ground (arith, u, c (or_local s), h t)
acquire-IsWithin n s (negsuc limit) a u c h t = ground (arith, h t)

give_back-IsWithin :
    (n : ℕ) (s : String) (a : Attached) → IsWithin n a → IsWithin n (run_call (give_back s) a)
unfolding run_call set_usage
give_back-IsWithin n s a h t = ground (arith, h t, h (or_local s))

run_call-IsWithin :
    (n : ℕ) (c : Call) (a : Attached)
    → IsUnder n c
    → IsCounted a
    → IsWithin n a
    → IsWithin n (run_call c a)
run_call-IsWithin n (acquire s limit) a u c h = acquire-IsWithin n s limit a u c h
run_call-IsWithin n (give_back s) a u c h = give_back-IsWithin n s a h

run-IsWithin :
    (n : ℕ) (calls : List Call) (a : Attached)
    → All (IsUnder n) calls
    → IsCounted a
    → IsWithin n a
    → IsWithin n (run_calls calls a)
run-IsWithin n [] a u c h = h
run-IsWithin n (x ∷ calls) a (u, us) c h =
    run-IsWithin n calls (run_call x a) us (run_call-IsCounted x a c)
      (run_call-IsWithin n x a u c h)

acquire_ok_iff :
    (c : AttachCounter) (s : String) (limit : ℕ)
    → ((try_acquire c s (pos limit)).1 ≡ ok tt) ↔ (suc (usage_of c s) ≤ limit)
unfolding try_acquire usage_of
acquire_ok_iff c s limit = (λ h. ground arith, λ h. ground arith)

-- Whatever attaches and ends of terminals a new counter sees, each attach under its own limit: the counter tells how many terminals every subject has attached; one more is granted under a limit exactly where the subject has fewer than the limit attached; and where no limit was above a number, no subject has more terminals attached than that number.
pub attached_within_limit :
    (calls : List Call) (s : String) (limit n : ℕ)
    → All (IsUnder n) calls
    → (usage_of (run_calls calls nothing_attached).counter s
        ≡ (run_calls calls nothing_attached).terminals (or_local s))
      × (((try_acquire (run_calls calls nothing_attached).counter s (pos limit)).1 ≡ ok tt)
          ↔ (suc ((run_calls calls nothing_attached).terminals (or_local s)) ≤ limit))
      × ((run_calls calls nothing_attached).terminals (or_local s) ≤ n)
unfolding usage_of new_attach_counter
attached_within_limit calls s limit n u =
    let a = run_calls calls nothing_attached in
    let counted = run-IsCounted calls nothing_attached (λ t. refl) in
    (
      counted (or_local s),
      subst (λ k. ((try_acquire a.counter s (pos limit)).1 ≡ ok tt) ↔ (suc k ≤ limit))
          (counted (or_local s)) (acquire_ok_iff a.counter s limit),
      run-IsWithin n calls nothing_attached u (λ t. refl) (λ t. ground arith) (or_local s),
    )

-- The counter after an acquire that succeeds.
acquired :
    (c : AttachCounter) (s : String) (limit : ℕ)
    → (try_acquire c s (pos limit)).1 ≡ ok tt
    → (try_acquire c s (pos limit)).0
      ≡ record { usage = set_usage c.usage (or_local s) (suc (usage_of c s)) }
unfolding try_acquire usage_of
acquired c s limit h = ground arith

acquired_usage : (usage : String → ℕ) (s : String) (n : ℕ) → set_usage usage s n s ≡ n
unfolding set_usage
acquired_usage usage s n = ground (arith, eq_refl s)

released :
    (c : AttachCounter) (s t : String)
    → usage_of
        (release (record { usage = set_usage c.usage (or_local s) (suc (usage_of c s)) }) s)
        t
      ≡ usage_of c t
unfolding usage_of release set_usage
released c s t = ground (arith, eq_refl (or_local s), eq_iff (or_local t) (or_local s))

-- An acquire succeeds exactly below the limit. It then counts one more for its subject, the release
-- by that subject restores the count of every subject.
pub try_acquire_exact :
    (c : AttachCounter) (s t : String) (limit : ℕ)
    → (((try_acquire c s (pos limit)).1 ≡ ok tt) ↔ (suc (usage_of c s) ≤ limit))
      × ((try_acquire c s (pos limit)).1 ≡ ok tt
          → (usage_of (try_acquire c s (pos limit)).0 s ≡ suc (usage_of c s))
            × (usage_of (release (try_acquire c s (pos limit)).0 s) t ≡ usage_of c t))
unfolding usage_of
try_acquire_exact c s t limit = (
  acquire_ok_iff c s limit,
  λ h. (
    subst (λ d. usage_of d s ≡ suc (usage_of c s)) (sym (acquired c s limit h))
        (acquired_usage c.usage (or_local s) (suc (usage_of c s))),
    subst (λ d. usage_of (release d s) t ≡ usage_of c t) (sym (acquired c s limit h))
        (released c s t),
  ),
)
