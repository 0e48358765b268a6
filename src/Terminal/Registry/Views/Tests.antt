-- ===== src/Terminal/Registry/Views/Tests.antt =====
-- Views of sessions without runtimes.
use mathlib.Core.List.{Perm}
use mathlib.Core.List.Perm
use term_bridge.Prelude.{
  ℕ, ◌≤◌, leb, if◌then◌else◌, List, [], ◌∷◌, All, none, some, ◌≡◌, refl, err, pos, negsuc,
}
use term_bridge.Session.Errors.{not_attachable}
use term_bridge.Store.Disk.{Disk}
use term_bridge.Store.Example.{Page, json, healthy}
use term_bridge.Terminal.Registry.Store.{RuntimeStore, json_store}
use term_bridge.Terminal.Registry.Views.{Live, Summary, exit_code_from_int, attach_runtime}

abbrev nothing_live : Live
nothing_live = λ s. none

cannot_attach : attach_runtime nothing_live "w1" "s1" ≡ err not_attachable
unfolding attach_runtime
cannot_attach = refl

-- An exit code outside 32 bits wraps around.
wraps : exit_code_from_int (some (pos 4294967295)) ≡ some (negsuc 0)
unfolding exit_code_from_int
wraps = refl

-- A sort of summaries, the last update first.
abbrev insert : Summary → List Summary → List Summary
insert s [] = s ∷ []
insert s (t ∷ ts) =
    let rest = insert s ts in if leb t.updated_at s.updated_at then s ∷ t ∷ ts else t ∷ rest

abbrev newest_first : List Summary → List Summary
newest_first [] = []
newest_first (s ∷ ss) = insert s (newest_first ss)

-- A list of summaries updated at some time at most.
abbrev IsUpTo : ℕ → List Summary → Type 0
IsUpTo n ss = All (λ (t : Summary). t.updated_at ≤ n) ss

abbrev store : RuntimeStore (Disk Page)
store = json_store json healthy
