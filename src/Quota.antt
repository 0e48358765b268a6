-- ===== src/Quota.antt =====
-- internal/shared/application/quota/counter.go: how many terminals each subject has attached. The
-- mutex is not modelled, since each method holds it throughout. The map is a function, where a
-- missing key reads as 0, and a use count is never negative.
pub mod Limit
mod Tests
use term_bridge.Prelude.{
  ℕ, suc, ◌+◌, ◌-◌, String, Bool, true, false, ◌==◌, if◌then◌else◌, ltb, leb, Result, ok, err, ℤ,
  pos, negsuc,
}

abbrev pub local_subject : String
local_subject = "local"

pub record AttachCounter : Type 0 where
  pub usage : String → ℕ

pub data QuotaError : Type 0 where
  exceeded : QuotaError

unfoldable pub new_attach_counter : AttachCounter
new_attach_counter = record { usage = λ s. 0 }

abbrev pub or_local : String → String
or_local subject = if subject == "" then local_subject else subject

unfoldable pub set_usage : (String → ℕ) → String → ℕ → String → ℕ
set_usage usage subject n s = if s == subject then n else usage s

abbrev pub reaches : ℕ → ℤ → Bool
reaches n (pos limit) = leb limit n
reaches n (negsuc limit) = true

unfoldable pub try_acquire :
    AttachCounter → String → ℤ → AttachCounter × Result QuotaError (Unit {0})
unfolding set_usage
try_acquire c subject limit =
    let s = or_local subject in
    if reaches 0 limit
    then (c, err exceeded)
    else if reaches (c.usage s) limit
    then (c, err exceeded)
    else (record { usage = set_usage c.usage s (c.usage s + 1) }, ok tt)

-- A deleted key reads as 0.
unfoldable pub release : AttachCounter → String → AttachCounter
unfolding set_usage
release c subject =
    let s = or_local subject in
    if leb (c.usage s) 1
    then record { usage = set_usage c.usage s 0 }
    else record { usage = set_usage c.usage s (c.usage s - 1) }

unfoldable pub usage_of : AttachCounter → String → ℕ
usage_of c subject = c.usage (or_local subject)
