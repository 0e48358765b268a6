-- ===== src/Shortcut/Command.antt =====
-- Which commands of sessions pass the check against the shortcuts.
use term_bridge.Prelude.{
  String, true, false, ◌==◌, eq_iff, ◌≡◌, ◌↔◌, some, ok, List, [], ◌∷◌, arith, Bool-cases, inl, inr,
}
use term_bridge.Prelude.Text.{trim_space}
use term_bridge.Session.Record.{CommandRecord, command_source_shortcut}
use term_bridge.Shortcut.{
  Shortcut, is_enabled, find_shortcut, find_listed, validate_shortcut_command,
}

-- The first shortcut with the id is enabled.
pub data IsUsable (id : String) : List Shortcut → Type 0 where
  here :
      {s : Shortcut} {ss : List Shortcut}
      → (s.id == id) ≡ true
      → is_enabled s.enabled ≡ true
      → IsUsable id (s ∷ ss)
  there :
      {s : Shortcut} {ss : List Shortcut}
      → (s.id == id) ≡ false
      → IsUsable id ss
      → IsUsable id (s ∷ ss)

found : (ss : List Shortcut) (id : String) → find_shortcut ss id ≡ ok tt → IsUsable id ss
unfolding find_shortcut
found [] id h = ground (arith, h)
found (s ∷ ss) id h = elim (Bool-cases (s.id == id)) [
  | inl e ↦ here e (ground (arith, e, h))
  | inr n ↦ there n (found ss id (ground (arith, n, h)))
]

usable : (id : String) (ss : List Shortcut) → IsUsable id ss → find_shortcut ss id ≡ ok tt
unfolding find_shortcut
usable id _ (here e b) = rw (e, b)
usable id _ (there {s} {ss} n u) = rw (n, usable id ss u)

accepted :
    (ss : List Shortcut) (c : CommandRecord)
    → c.source ≡ command_source_shortcut
    → validate_shortcut_command (some ss) c ≡ ok tt
    → ((trim_space c.shortcut_id_snapshot == "") ≡ false)
      × (find_shortcut ss (trim_space c.shortcut_id_snapshot) ≡ ok tt)
unfolding validate_shortcut_command find_listed
accepted ss c e h =
    let s : (c.source == command_source_shortcut) ≡ true =
      (eq_iff c.source command_source_shortcut).1 e in
    (ground (arith, s, h), ground (arith, s, h))

-- A command that names a shortcut as its source is accepted exactly if it has the id of a shortcut,
-- the store can be listed, and the first shortcut with that id, up to the space around the id of
-- the command, is enabled or does not say.
pub validate_shortcut_command_iff :
    (ss : List Shortcut) (c : CommandRecord)
    → c.source ≡ command_source_shortcut
    → (validate_shortcut_command (some ss) c ≡ ok tt) ↔ (
        ((trim_space c.shortcut_id_snapshot == "") ≡ false)
        × IsUsable (trim_space c.shortcut_id_snapshot) ss)
unfolding validate_shortcut_command find_listed
validate_shortcut_command_iff ss c e = (
  λ h. let (n, f) = accepted ss c e h in (n, found ss (trim_space c.shortcut_id_snapshot) f),
  λ (n, u). rw (e, n, usable (trim_space c.shortcut_id_snapshot) ss u),
)
