-- ===== src/File/Safety.antt =====
-- What the paths that ParseRelativePath of path.go accepts mean for a walk of directories.
use text.Mathlib.Text.{starts_with}
use term_bridge.Prelude.{
  String, Bool, true, false, not, ◌||◌, ◌==◌, eq_iff, ◌≡◌, refl, sym, ap, ◌∙◌, if_both,
  if◌then◌else◌, Option, none, some, List, [], ◌∷◌, Result, ok, err, bind-ok, fail_if, ◌>>◌, arith,
  ◌⊎◌, inl, inr,
}
use term_bridge.Prelude.Text.{contains}
use term_bridge.File.{
  PathError, invalid_segment, not_relative, has_volume, not_canonical, contains_rune, PathLib,
  split_slash, check_segments, check_text, parse_relative_path,
}

-- One step of a walk from a directory, given by its segments from the last to the first, as the
-- operating system takes it: an empty segment and a dot stay, and two dots go to the parent, which
-- the root has not.
abbrev pub step : List String → String → Option (List String)
step here s =
    if s == "" || s == "."
    then some here
    else if s == ".."
    then (elim here [ [] ↦ none | x ∷ xs ↦ some xs ])
    else some (s ∷ here)

unfoldable pub walk : Option (List String) → List String → Option (List String)
walk h [] = h
walk none (s ∷ ss) = none
walk (some here) (s ∷ ss) = walk (step here s) ss

abbrev pub below : List String → List String → List String
below here [] = here
below here (s ∷ ss) = below (s ∷ here) ss

plain_step :
    (here : List String) (s : String)
    → (s == "" || s == "." || s == "..") ≡ false
    → step here s ≡ some (s ∷ here)
plain_step here s n =
    if_both (λ x. x ≡ some (s ∷ here)) (s == "" || s == ".") _ _ (λ y. ground (arith, n, y))
      (λ _.
        if_both (λ x. x ≡ some (s ∷ here)) (s == "..") _ _ (λ y. ground (arith, n, y)) (λ _. refl))

segments-walk :
    (here ss : List String) → check_segments ss ≡ ok tt → walk (some here) ss ≡ some (below here ss)
unfolding walk check_segments
segments-walk here [] = λ _. refl
segments-walk here (s ∷ ss) =
    if_both (λ x. x ≡ ok tt → walk (some here) (s ∷ ss) ≡ some (below here (s ∷ ss)))
      (s == "" || s == "." || s == "..") (err invalid_segment) (check_segments ss)
      (λ y e. ground (arith, e))
      (λ n e. ap (λ h. walk h ss) (plain_step here s n) ∙ segments-walk (s ∷ here) ss e)

or_text : Result PathError String → String
or_text (ok s) = s
or_text (err e) = ""

after_checks :
    (a b c : Bool) (rest : Result PathError (Unit {0}))
    → (fail_if a not_relative >> (fail_if b has_volume >> (fail_if c not_canonical >> rest)))
      ≡ ok tt
    → rest ≡ ok tt
after_checks true b c rest e = ground (arith, e)
after_checks false true c rest e = ground (arith, e)
after_checks false false true rest e = ground (arith, e)
after_checks false false false rest e = e

checked_segments :
    (p : PathLib) (value : String)
    → check_text p value ≡ ok tt
    → check_segments (split_slash value) ≡ ok tt
unfolding check_text
checked_segments p value e =
    after_checks (contains_rune 0 value || contains value "\\" || starts_with value "/")
      (contains value ":" || starts_with value "//") (not (p.clean value == value))
      (check_segments (split_slash value)) e

-- A path that ParseRelativePath accepts is returned as it is. It is empty only where the root is
-- allowed, and else a walk along its segments, from any directory, goes down one directory with each
-- of them and ends below where it started.
pub parse_relative_path-walk :
    (p : PathLib) (value path : String) (allow_root : Bool) (here : List String)
    → parse_relative_path p value allow_root ≡ ok path
    → (path ≡ value)
      × ((((value == "") ≡ true) × (allow_root ≡ true))
          ⊎ (walk (some here) (split_slash value) ≡ some (below here (split_slash value))))
unfolding parse_relative_path or_text
parse_relative_path-walk p value path allow_root here =
    if_both P (value == "") _ _
      (λ y.
        if_both P allow_root _ _
          (λ a e. (sym (text_of e) ∙ sym ((eq_iff value "").0 y), inl (y, a)))
          (λ _ e. ground (arith, e)))
      (λ _ e.
        let (_, c, e1) = bind-ok (check_text p value) (λ _. ok value) path e in
        (
          sym (text_of e1),
          inr (segments-walk here (split_slash value) (checked_segments p value c)),
        ))
  where
    text_of : {x y : String} → ◌≡◌ {A = Result PathError String} (ok x) (ok y) → x ≡ y
    text_of e = ap or_text e

    P : Result PathError String → Type 0
    P x =
        x ≡ ok path
        → (path ≡ value)
          × ((((value == "") ≡ true) × (allow_root ≡ true))
              ⊎ (walk (some here) (split_slash value) ≡ some (below here (split_slash value))))
