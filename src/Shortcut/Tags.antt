-- ===== src/Shortcut/Tags.antt =====
-- The tags of a shortcut in their normal form.
use term_bridge.Prelude.{
  String, Bool, true, false, ◌||◌, ◌==◌, eq_iff, ◌≡◌, refl, ap, subst, if_both, List, [], ◌∷◌, ◌++◌,
  arith, Bool-cases, inl, inr,
}
use term_bridge.Prelude.Text.{trim_space, contains_text, contains-append}
use term_bridge.Shortcut.{add_tag, tag_loop, normalize_tags}

-- No tag occurs twice, and none is empty.
abbrev pub IsDistinct : List String → Type 0
IsDistinct [] = Unit {0}
IsDistinct (t ∷ ts) = (t == "" ≡ false) × (contains_text ts t ≡ false) × IsDistinct ts

append-IsDistinct :
    (xs : List String) (y : String)
    → IsDistinct xs
    → (y == "") ≡ false
    → contains_text xs y ≡ false
    → IsDistinct (xs ++ y ∷ [])
unfolding contains_text
append-IsDistinct [] y d e n = (e, refl, tt)
append-IsDistinct (x ∷ xs) y d e n = (
  d.0,
  ground (arith, contains-append xs y x, eq_iff x y, eq_iff y x, n, d.1),
  append-IsDistinct xs y d.2 e (ground (arith, n)),
)

add_tag-IsDistinct :
    (tags : List String) (tag : String) → IsDistinct tags → IsDistinct (add_tag tags tag)
unfolding add_tag
add_tag-IsDistinct tags tag d =
    if_both (λ (ts : List String). IsDistinct ts) (tag == "" || contains_text tags tag) _ _ (λ _. d)
      (λ n. append-IsDistinct tags tag d (ground (arith, n)) (ground (arith, n)))

tag_loop-IsDistinct :
    (tags values : List String) → IsDistinct tags → IsDistinct (tag_loop tags values)
unfolding tag_loop
tag_loop-IsDistinct tags [] d = d
tag_loop-IsDistinct tags (v ∷ vs) d =
    tag_loop-IsDistinct (add_tag tags (trim_space v)) vs (add_tag-IsDistinct tags (trim_space v) d)

-- Whether some value is the tag, up to the space around it.
abbrev pub trims_to : List String → String → Bool
trims_to [] t = false
trims_to (v ∷ vs) t = trim_space v == t || trims_to vs t

same_tag :
    (tags : List String) (x t : String)
    → (x == t) ≡ true
    → contains_text tags x ≡ contains_text tags t
same_tag tags x t h = ap (contains_text tags) ((eq_iff x t).0 h)

other_tag : (x t : String) → (x == "") ≡ true → (t == "") ≡ false → (x == t) ≡ false
other_tag x t a e = elim (Bool-cases (x == t)) [
  | inl h ↦ ground (arith, subst (λ s. (s == "") ≡ true) ((eq_iff x t).0 h) a)
  | inr n ↦ n
]

add_tag-contains :
    (tags : List String) (tag t : String)
    → (t == "") ≡ false
    → contains_text (add_tag tags tag) t ≡ contains_text tags t || tag == t
unfolding add_tag
add_tag-contains tags tag t e = elim (Bool-cases (tag == "")) [
  | inl a ↦ ground (arith, a, other_tag tag t a e)
  | inr b ↦ elim (Bool-cases (contains_text tags tag)) [
    | inl c ↦ ground (arith, b, c, same_tag tags tag t)
    | inr n ↦ ground (arith, b, n, contains-append tags tag t)
  ]
]

tag_loop-contains :
    (tags values : List String) (t : String)
    → (t == "") ≡ false
    → contains_text (tag_loop tags values) t ≡ contains_text tags t || trims_to values t
unfolding tag_loop
tag_loop-contains tags [] t e = ground arith
tag_loop-contains tags (v ∷ vs) t e = ground (
  arith,
  tag_loop-contains (add_tag tags (trim_space v)) vs t e,
  add_tag-contains tags (trim_space v) t e,
)

empty_tag : (tags : List String) → IsDistinct tags → contains_text tags "" ≡ false
unfolding contains_text
empty_tag [] d = refl
empty_tag (x ∷ xs) d = ground (arith, empty_tag xs d.2, d.0)

none_before :
    (values : List String) (t : String)
    → (t == "") ≡ false
    → contains_text (tag_loop [] values) t ≡ trims_to values t
unfolding contains_text
none_before values t e = tag_loop-contains [] values t e

-- The tags in normal form are the values without the space around them: each non-empty one is
-- there, none twice, and none is empty or made up.
pub normalize_tags-IsDistinct :
    (values : List String) (t : String)
    → IsDistinct (normalize_tags values)
      × (contains_text (normalize_tags values) "" ≡ false)
      × ((t == "") ≡ false → contains_text (normalize_tags values) t ≡ trims_to values t)
unfolding normalize_tags
normalize_tags-IsDistinct values t = (
  tag_loop-IsDistinct [] values tt,
  empty_tag (normalize_tags values) (tag_loop-IsDistinct [] values tt),
  λ e. none_before values t e,
)
