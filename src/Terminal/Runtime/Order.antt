-- ===== src/Terminal/Runtime/Order.antt =====
-- Lists of client ids: membership, removal and distinctness.
use text.Mathlib.TextPositions.{eq_refl}
use term_bridge.Prelude.{
  String, ◌≡◌, refl, true, false, ◌||◌, List, [], ◌∷◌, ◌++◌, arith, ◌==◌, eq_iff, if◌then◌else◌,
  All, Bool-cases, inl, inr,
}
use term_bridge.Prelude.Text.{contains_text}
use term_bridge.Terminal.Runtime.{remove_client_order}

pub contains-remove :
    (xs : List String) (id j : String)
    → contains_text (remove_client_order xs id) j ≡ (if id == j then false else contains_text xs j)
unfolding remove_client_order contains_text
contains-remove [] id j = ground arith
contains-remove (x ∷ xs) id j =
    ground (arith, contains-remove xs id j, eq_iff x id, eq_iff x j, eq_iff id j)

pub contains-append :
    (xs ys : List String) (j : String)
    → contains_text (xs ++ ys) j ≡ (contains_text xs j || contains_text ys j)
unfolding contains_text
contains-append [] ys j = refl
contains-append (x ∷ xs) ys j = ground (arith, contains-append xs ys j)

abbrev pub IsDistinct : List String → Type 0
IsDistinct [] = Unit
IsDistinct (x ∷ xs) = (contains_text xs x ≡ false) × IsDistinct xs

pub remove-IsDistinct :
    (xs : List String) (id : String) → IsDistinct xs → IsDistinct (remove_client_order xs id)
unfolding remove_client_order
remove-IsDistinct [] id h = tt
remove-IsDistinct (x ∷ xs) id h = elim (Bool-cases (x == id)) [
  | inl e ↦ rw (e, remove_client_order) (remove-IsDistinct xs id h.1)
  | inr e ↦
      rw (e, remove_client_order)
        (ground (arith, contains-remove xs id x, h.0), remove-IsDistinct xs id h.1)
]

pub append-IsDistinct :
    (xs : List String) (id : String)
    → IsDistinct xs
    → contains_text xs id ≡ false
    → IsDistinct (xs ++ id ∷ [])
unfolding contains_text
append-IsDistinct [] id h new = (refl, tt)
append-IsDistinct (x ∷ xs) id h new = (
  ground (arith, contains-append xs (id ∷ []) x, h.0, eq_iff x id, eq_iff id x),
  append-IsDistinct xs id h.1 (ground arith),
)

pub remove_absent :
    (xs : List String) (id : String) → contains_text xs id ≡ false → remove_client_order xs id ≡ xs
unfolding remove_client_order contains_text
remove_absent [] id new = refl
remove_absent (x ∷ xs) id new = ground (arith, remove_absent xs id)

-- A list without its first id.
pub remove_first :
    (x : String) (xs : List String)
    → contains_text xs x ≡ false
    → remove_client_order (x ∷ xs) x ≡ xs
unfolding remove_client_order contains_text
remove_first x xs new = rw eq_refl (remove_absent xs x new)

module _ {ℓ} (P : String → Type ℓ) where
  pub All-remove : (xs : List String) (id : String) → All P xs → All P (remove_client_order xs id)
  unfolding remove_client_order
  All-remove [] id h = tt
  All-remove (x ∷ xs) id h = elim (Bool-cases (x == id)) [
    | inl e ↦ rw (e, remove_client_order) (All-remove xs id h.1)
    | inr e ↦ rw (e, remove_client_order) (h.0, All-remove xs id h.1)
  ]

  pub All-at : (xs : List String) (id : String) → All P xs → contains_text xs id ≡ true → P id
  unfolding contains_text
  All-at [] id h e = absurd (ground arith)
  All-at (x ∷ xs) id h e = elim (Bool-cases (x == id)) [
    | inl s ↦ rw (← (eq_iff x id).0 s) h.0
    | inr s ↦ All-at xs id h.1 (ground arith)
  ]
