-- ===== src/Shortcut.antt =====
-- internal/agent/model/task/shortcut/shortcut.go: the stored shortcuts and their normal form, and
-- validateShortcutCommand of internal/agent/application/task/terminal/registry.go. Times are
-- numbers; a nil pointer is `none`.
pub mod Tags
pub mod Command
mod Tests
use term_bridge.Prelude.{
  ℕ, String, Bool, true, false, not, ◌||◌, ◌==◌, Option, none, some, if◌then◌else◌, Result, ok, err,
  List, [], ◌∷◌, ◌++◌,
}
use term_bridge.Prelude.Text.{trim_space, contains_text}
use term_bridge.Session.Record.{CommandRecord, command_source_shortcut}

pub record Shortcut : Type 0 where
  pub schema_version : ℕ
  pub id : String
  pub name : String
  pub command : String
  pub description : Option String
  pub icon : Option String
  pub enabled : Option Bool
  pub tags : List String
  pub last_used_at : ℕ
  pub created_at : ℕ
  pub updated_at : ℕ

pub data ShortcutError : Type 0 where
  id_required not_found disabled name_required command_required : ShortcutError
  -- The errors that validateShortcutCommand makes of a missing or failing store.
  list_shortcuts : ShortcutError

unfoldable pub normalize_optional_text : Option String → Option String
normalize_optional_text none = none
normalize_optional_text (some text) = if trim_space text == "" then none else some (trim_space text)

-- One round of the loop over the tags: those so far are also those that have been seen.
unfoldable pub add_tag : List String → String → List String
unfolding contains_text
add_tag tags tag = if tag == "" || contains_text tags tag then tags else tags ++ tag ∷ []

unfoldable pub tag_loop : List String → List String → List String
unfolding add_tag
tag_loop tags [] = tags
tag_loop tags (value ∷ values) = tag_loop (add_tag tags (trim_space value)) values

unfoldable pub normalize_tags : List String → List String
unfolding tag_loop
normalize_tags values = tag_loop [] values

-- On an error the value keeps what has been changed so far.
unfoldable pub normalize : Shortcut → Shortcut × Result ShortcutError (Unit {0})
unfolding normalize_tags normalize_optional_text
normalize s =
    let s' = record s { id = trim_space s.id; name = trim_space s.name } in
    if s'.name == ""
    then (s', err name_required)
    else if trim_space s'.command == ""
    then (s', err command_required)
    else (
      record s' {
        description = normalize_optional_text s.description;
        icon = normalize_optional_text s.icon;
        tags = normalize_tags s.tags;
      },
      ok tt,
    )

abbrev pub is_enabled : Option Bool → Bool
is_enabled none = true
is_enabled (some b) = b

unfoldable pub find_shortcut : List Shortcut → String → Result ShortcutError (Unit {0})
find_shortcut [] id = err not_found
find_shortcut (s ∷ ss) id =
    let rest = find_shortcut ss id in
    if not (s.id == id) then rest else if is_enabled s.enabled then ok tt else err disabled

-- `none` is a missing store or one that fails to list.
unfoldable pub find_listed : Option (List Shortcut) → String → Result ShortcutError (Unit {0})
unfolding find_shortcut
find_listed none id = err list_shortcuts
find_listed (some ss) id = find_shortcut ss id

unfoldable pub validate_shortcut_command :
    Option (List Shortcut) → CommandRecord → Result ShortcutError (Unit {0})
unfolding find_listed
validate_shortcut_command store c =
    if not (c.source == command_source_shortcut)
    then ok tt
    else if trim_space c.shortcut_id_snapshot == ""
    then err id_required
    else find_listed store (trim_space c.shortcut_id_snapshot)
