-- ===== src/Git/Paths.antt =====
-- Paths of a repository and of a workspace in it, as repository.go of gitexec changes one into the
-- other.
use Prim.Native.String.{◌++◌, len, slice}
use text.Mathlib.Text.{starts_with}
use text.Mathlib.TextEquality.{starts_with_iff}
use text.Mathlib.TextPositions.{slice-append_right, len-append}
use term_bridge.Prelude.{
  String, Bool, true, false, ◌==◌, ◌≡◌, refl, sym, ap, subst, ◌∙◌, ◌↔◌, if◌then◌else◌, if_both,
  Option, none, some, arith,
}
use term_bridge.Git.{trim_prefix, workspace_relative_path, repository_path}

or_empty : Option String → String
or_empty none = ""
or_empty (some s) = s

trim-append : (p t : String) → trim_prefix (p ++ t) p ≡ t
unfolding trim_prefix
trim-append p t = ap (slice (p ++ t) (len p)) (len-append p t) ∙ slice-append_right p t

cut_off : (value p : String) → Option String
cut_off value p = if starts_with value p then some (trim_prefix value p) else none

cut_off_forth : (value p path : String) → cut_off value p ≡ some path → value ≡ p ++ path
unfolding cut_off or_empty
cut_off_forth value p path =
    if_both (λ x. x ≡ some path → value ≡ p ++ path) (starts_with value p)
      (some (trim_prefix value p)) none
      (λ s e.
        let (u, q) = (starts_with_iff value p).0 s in
        let same : u ≡ path = sym (trim-append p u) ∙ ap (λ x. trim_prefix x p) q ∙ ap or_empty e in
        sym q ∙ ap (λ x. p ++ x) same)
      (λ _ e. ground (arith, e))

cut_off_back : (p path : String) → cut_off (p ++ path) p ≡ some path
unfolding cut_off
cut_off_back p path =
    let s : starts_with (p ++ path) p ≡ true = (starts_with_iff (p ++ path) p).1 (path, refl) in
    ap (λ b. if b then some (trim_prefix (p ++ path) p) else none) s ∙ ap some (trim-append p path)

either_way :
    (b : Bool) (value p path : String)
    → ((if b then some value else cut_off value p) ≡ some path)
      ↔ (value ≡ (if b then path else p ++ path))
unfolding or_empty
either_way true value p path = (λ e. ap or_empty e, λ q. ap some q)
either_way false value p path = (
  cut_off_forth value p path,
  λ q. subst (λ v. cut_off v p ≡ some path) (sym q) (cut_off_back p path),
)

-- A path of the repository is a path of the workspace exactly when the workspace's prefix in front of
-- that gives it back: the two changes of paths are inverse, and what is outside the workspace is left
-- out.
pub workspace_relative_path_iff :
    (value prefix path : String)
    → (workspace_relative_path value prefix ≡ some path) ↔ (value ≡ repository_path prefix path)
unfolding workspace_relative_path repository_path cut_off
workspace_relative_path_iff value prefix path = either_way (prefix == "") value (prefix ++ "/") path
