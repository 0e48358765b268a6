-- ===== src/Terminal/Registry/Manage/Edited.antt =====
-- What UpdateSession of registry.go makes of the session that the store gives it.
use term_bridge.Prelude.{
  ℕ, String, true, false, not, ◌&&◌, if_both, ◌≡◌, refl, sym, ap, subst, ◌∙◌, Option, none, some,
  Result, ok, err, arith,
}
use term_bridge.Prelude.Text.{trim_space}
use term_bridge.Session.Record.{Session, CommandRecord, valid_source}
use term_bridge.Store.Disk.{StoreError}
use term_bridge.Terminal.Registry.Requests.{
  UpdateSessionReq, is_given, apply_update, source_given, with_name, with_source, text_of,
}

-- The session that UpdateSession saves: the time is new, the name and the command change only if the
-- request gives them, the source of the command only if the request gives a command and a part of a
-- source, and nothing else changes.
pub data IsEdited (q : UpdateSessionReq) (now : ℕ) (s : Session) : Session → Type 0 where
  edited :
      (name : String) (c : CommandRecord)
      → (q.name ≡ none → name ≡ s.name)
      → (q.command ≡ none → c ≡ s.command)
      → ((text : String) → q.command ≡ some text → c.command ≡ text)
      → (source_given q ≡ true → is_given q.command ≡ true → valid_source c ≡ true)
      → (source_given q ≡ false → c.source ≡ s.command.source)
      → IsEdited q now s (record s { name = name; command = c; updated_at = now })

or_session : Session → Result StoreError Session → Session
or_session s (err e) = s
or_session s (ok t) = t

with_name-only :
    (q : UpdateSessionReq) (s : Session) → with_name q s ≡ record s { name = (with_name q s).name }
with_name-only q s =
    if_both (λ r. r ≡ record s { name = r.name }) (is_given q.name)
      (record s { name = trim_space (text_of q.name) }) s (λ _. refl) (λ _. refl)

no_name : (q : UpdateSessionReq) (s : Session) → q.name ≡ none → (with_name q s).name ≡ s.name
no_name q s e = rw (ap is_given e)

given : {A : Type 0} (x : Option A) (a : A) → x ≡ some a → is_given x ≡ true
given x a e = rw e

-- When the change that UpdateSession hands to the store succeeds, the session has the new time;
-- its name and its command differ only if the request gives them, and the command is then the
-- given text; if the request gives a command and a part of a source, the new source is valid, and
-- without a part of a source the source is as it was; and nothing else changes.
pub apply_update-IsEdited :
    (now : ℕ) (q : UpdateSessionReq) (s t : Session)
    → apply_update now q s ≡ ok t
    → IsEdited q now s t
unfolding apply_update or_session
apply_update-IsEdited now q s t =
    let only = with_name-only q s in
    if_both (λ r. r ≡ ok t → IsEdited q now s t) (not (is_given q.command)) _ _
      (λ n e.
        subst (IsEdited q now s)
          (sym (ap (λ (u : Session). record u { updated_at = now }) only) ∙ ap (or_session s) e)
          (edited (with_name q s).name s.command (no_name q s) (λ _. refl)
            (λ text g. ground (arith, n, given q.command text g)) (λ _ g. ground (arith, n, g))
            (λ _. refl)))
      (λ y.
        let c = record (with_source q s.command) { command = text_of q.command } in
        if_both (λ r. r ≡ ok t → IsEdited q now s t)
          (source_given q && not (valid_source (with_source q s.command))) _ _
          (λ _ e. ground (arith, e))
          (λ n e.
            subst (IsEdited q now s)
              (sym (ap (λ (u : Session). record u { command = c; updated_at = now }) only)
                ∙ ap (or_session s) e)
              (edited (with_name q s).name c (no_name q s) (λ g. ground (arith, y, ap is_given g))
                (λ text g. ap text_of g) (λ g _. ground (arith, n, g)) (λ g. rw g))))
