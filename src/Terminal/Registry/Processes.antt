-- ===== src/Terminal/Registry/Processes.antt =====
-- Launches of sessions by any callers at once. The steps are the sections of a launch between which
-- other callers run: claimSessionStart, the start of the PTY, the registration of the runtime, and
-- releaseSessionStart; the end of a process by itself, and later the removal of its runtime by
-- waitLoop, which waits for that end. A process whose state cannot be saved is abandoned: its PTY is
-- closed, but whether it ends is up to it.
use term_bridge.Prelude.{
  ℕ, suc, ◌+◌, ◌-◌, ◌≤◌, ◌<◌, String, Bool, true, false, ◌==◌, eq_iff, ◌≡◌, refl, eqb,
  if◌then◌else◌, ok, arith,
}
use term_bridge.Terminal.Registry.{
  Registry, new_registry, set_key, claim_session_start, release_session_start, add_runtime,
  remove_runtime,
}

-- The registry; for each session, the numbers of launches that have claimed it, that have started a
-- PTY, and that have registered it; and the numbers of its processes that run, without the abandoned
-- ones, and of those that are abandoned and run.
pub record Host : Type 0 where
  pub registry : Registry
  pub claimed : String → ℕ
  pub spawned : String → ℕ
  pub registered : String → ℕ
  pub processes : String → ℕ
  pub abandoned : String → ℕ

abbrev pub new_host : Host
new_host = record {
  registry = new_registry;
  claimed = λ s. 0;
  spawned = λ s. 0;
  registered = λ s. 0;
  processes = λ s. 0;
  abandoned = λ s. 0;
}

abbrev pub more : (String → ℕ) → String → String → ℕ
more f id s = if s == id then suc (f s) else f s

abbrev pub fewer : (String → ℕ) → String → String → ℕ
fewer f id s = if s == id then f s - 1 else f s

pub data Step : Host → Host → Type 0 where
  claims :
      {h : Host} (id : String)
      → (claim_session_start h.registry id).1 ≡ ok tt
      → Step h (record h {
        registry = (claim_session_start h.registry id).0;
        claimed = more h.claimed id;
      })
  -- An error before or in the manager's Start.
  gives_up :
      {h : Host} (id : String)
      → 0 < h.claimed id
      → Step h (record h {
        registry = release_session_start h.registry id;
        claimed = fewer h.claimed id;
      })
  spawns :
      {h : Host} (id : String)
      → 0 < h.claimed id
      → Step h (record h {
        claimed = fewer h.claimed id;
        spawned = more h.spawned id;
        processes = more h.processes id;
      })
  -- The state of the process is not saved, and its PTY is closed, with or without an error. The process
  -- may have ended before.
  discards :
      {h : Host} (id : String)
      → 0 < h.spawned id
      → Step h (record h {
        registry = release_session_start h.registry id;
        spawned = fewer h.spawned id;
        processes = fewer h.processes id;
        abandoned = if eqb (h.processes id) 0 then h.abandoned else more h.abandoned id;
      })
  registers :
      {h : Host} (id : String)
      → 0 < h.spawned id
      → Step h (record h {
        registry = add_runtime h.registry id;
        spawned = fewer h.spawned id;
        registered = more h.registered id;
      })
  releases :
      {h : Host} (id : String)
      → 0 < h.registered id
      → Step h (record h {
        registry = release_session_start h.registry id;
        registered = fewer h.registered id;
      })
  -- A process ends, in whatever state its launch or its runtime is.
  exits :
      {h : Host} (id : String)
      → 0 < h.processes id
      → Step h (record h { processes = fewer h.processes id })
  abandoned_exits :
      {h : Host} (id : String)
      → 0 < h.abandoned id
      → Step h (record h { abandoned = fewer h.abandoned id })
  -- waitLoop, after Wait has returned since the process has ended.
  removes :
      {h : Host} (id : String)
      → h.registry.runtimes id ≡ true
      → h.processes id ≡ 0
      → Step h (record h { registry = remove_runtime h.registry id })

pub data Reach : Host → Type 0 where
  fresh : Reach new_host
  after : {h k : Host} → Reach h → Step h k → Reach k

abbrev pub count_of : Bool → ℕ
count_of true = 1
count_of false = 0

-- What holds of one session: a launch in progress is the only one and holds the claim, and each
-- process that is not abandoned belongs to a launch that has not registered it yet or to the runtime.
abbrev pub IsCounted : Bool → Bool → ℕ → ℕ → ℕ → ℕ → Type 0
IsCounted runs launches claimed spawned registered processes =
    (claimed + spawned + registered ≡ count_of launches)
    × (processes ≤ spawned + count_of runs)
    × (runs ≡ true → claimed + spawned ≡ 0)

abbrev pub IsHost : Host → Type 0
IsHost h =
    (s : String)
    → IsCounted (h.registry.runtimes s) (h.registry.launching s) (h.claimed s) (h.spawned s)
        (h.registered s) (h.processes s)

new_host-IsHost : IsHost new_host
unfolding new_registry
new_host-IsHost s = (refl, ground arith, λ e. refl)

Step-IsHost : (h k : Host) → Step h k → IsHost h → IsHost k
unfolding claim_session_start release_session_start add_runtime remove_runtime set_key
Step-IsHost h _ (claims id e) inv s = ground (arith, inv s, inv id, eq_iff s id)
Step-IsHost h _ (gives_up id e) inv s = ground (arith, inv s, inv id, eq_iff s id)
Step-IsHost h _ (spawns id e) inv s = ground (arith, inv s, inv id, eq_iff s id)
Step-IsHost h _ (discards id e) inv s = ground (arith, inv s, inv id, eq_iff s id)
Step-IsHost h _ (registers id e) inv s = ground (arith, inv s, inv id, eq_iff s id)
Step-IsHost h _ (releases id e) inv s = ground (arith, inv s, inv id, eq_iff s id)
Step-IsHost h _ (exits id e) inv s = ground (arith, inv s, inv id, eq_iff s id)
Step-IsHost h _ (abandoned_exits id e) inv s = inv s
Step-IsHost h _ (removes id e z) inv s = ground (arith, inv s, inv id, eq_iff s id)

Reach-IsHost : (h : Host) → Reach h → IsHost h
Reach-IsHost _ fresh = new_host-IsHost
Reach-IsHost k (after {h} r st) = Step-IsHost h k st (Reach-IsHost h r)

-- However launches, ends of processes and removals of runtimes interleave, a session has at most one process, besides those that a launch abandoned because it could not save their state; while a launch of it that has started a process is not registered yet, it has no runtime; and at most one launch of it is between its claim and its release.
pub one_process_per_session :
    (h : Host)
    → Reach h
    → (s : String)
    → (h.processes s ≤ 1)
      × (h.registry.runtimes s ≡ true → h.spawned s ≡ 0)
      × (h.claimed s + h.spawned s + h.registered s ≤ 1)
one_process_per_session h r s = ground (arith, Reach-IsHost h r s)
