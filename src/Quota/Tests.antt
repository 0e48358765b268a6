-- ===== src/Quota/Tests.antt =====
-- A counter under a limit of 2, and of 1 for the local subject.
use term_bridge.Prelude.{suc, ◌≤◌, ◌≡◌, ◌↔◌, ok, List, [], ◌∷◌, pos, arith}
use term_bridge.Quota.{try_acquire, usage_of}
use term_bridge.Quota.Limit.{
  Call, acquire, give_back, Attached, nothing_attached, run_calls, attached_within_limit,
}

abbrev calls : List Call
calls =
    acquire "ann" (pos 2)
    ∷ acquire "ann" (pos 2)
    ∷ acquire "ann" (pos 2)
    ∷ give_back "ann"
    ∷ acquire "" (pos 1)
    ∷ []

abbrev attached : Attached
attached = run_calls calls nothing_attached

attached_within_limit_example :
    (usage_of attached.counter "ann" ≡ attached.terminals "ann")
    × (((try_acquire attached.counter "ann" (pos 2)).1 ≡ ok tt)
        ↔ (suc (attached.terminals "ann") ≤ 2))
    × (attached.terminals "ann" ≤ 2)
attached_within_limit_example =
    attached_within_limit calls "ann" 2 2
      (ground (arith), (ground (arith), (ground (arith), (tt, (ground (arith), tt)))))
