-- ===== src/Store/Order/Complete.antt =====
-- What completeOrderedIds accepts, and what it makes of it.
use text.Mathlib.TextPositions.{eq_refl}
use term_bridge.Prelude.{
  String, Bool, true, false, not, ◌&&◌, ◌||◌, ◌==◌, eq_iff, ◌≡◌, refl, sym, ap, subst, ◌∙◌, ◌↔◌,
  if_both, List, [], ◌∷◌, ◌++◌, append-nil, append_assoc, Result, ok, err, arith, Bool-cases, inl,
  inr,
}
use term_bridge.Prelude.Text.{contains_text, contains-append}
use term_bridge.Store.Node.Children.{IsDistinct, append-IsDistinct}
use term_bridge.Store.Order.{OrderError, take_ids, others, append_others, complete_ordered_ids}

-- The ids are distinct, none of them has been seen, and all are known.
abbrev pub IsFresh : List String → List String → List String → Type 0
IsFresh known seen [] = Unit {0}
IsFresh known seen (id ∷ ids) =
    (contains_text seen id ≡ false)
    × (contains_text known id ≡ true)
    × IsFresh known (seen ++ id ∷ []) ids

taken :
    (known seen ids out : List String)
    → take_ids known seen ids ≡ ok out
    → IsFresh known seen ids × (out ≡ seen ++ ids)
unfolding take_ids
taken known seen [] out h = (tt, ground (arith, h, append-nil seen))
taken known seen (id ∷ ids) out h =
    let (f, e) = taken known (seen ++ id ∷ []) ids out (ground (arith, h)) in
    ((ground (arith, h), ground (arith, h), f), e ∙ append_assoc seen (id ∷ []) ids)

takes :
    (known seen ids : List String)
    → IsFresh known seen ids
    → take_ids known seen ids ≡ ok (seen ++ ids)
unfolding take_ids
takes known seen [] f = ap (λ l. ok l) (sym (append-nil seen))
takes known seen (id ∷ ids) f =
    rw (f.0, f.1)
      (takes known (seen ++ id ∷ []) ids f.2 ∙ ap (λ l. ok l) (append_assoc seen (id ∷ []) ids))

pub contains-others :
    (seen ids : List String) (x : String)
    → contains_text (others seen ids) x ≡ contains_text ids x && not (contains_text seen x)
unfolding others contains_text
contains-others seen [] x = refl
contains-others seen (id ∷ ids) x = ground (arith, contains-others seen ids x, same_seen id)
  where
    same_seen : (y : String) → (y == x) ≡ true → contains_text seen y ≡ contains_text seen x
    same_seen y h = ap (contains_text seen) ((eq_iff y x).0 h)

contains-concat :
    (xs ys : List String) (t : String)
    → contains_text (xs ++ ys) t ≡ contains_text xs t || contains_text ys t
unfolding contains_text
contains-concat [] ys t = refl
contains-concat (x ∷ xs) ys t = ground (arith, contains-concat xs ys t)

result_of : List String → Result OrderError (List String) → List String
result_of z (err e) = z
result_of z (ok x) = x

ok_same : (r : Result OrderError (List String)) (x y : List String) → r ≡ ok x → r ≡ ok y → x ≡ y
unfolding result_of
ok_same r x y h k = ap (result_of []) (sym h ∙ k)

-- Fresh ids, without the loop.
abbrev pub IsListed : List String → List String → List String → Type 0
IsListed known seen ids =
    (x : String)
    → contains_text ids x ≡ true
    → (contains_text seen x ≡ false) × (contains_text known x ≡ true)

head_listed : (id : String) (ids : List String) → contains_text (id ∷ ids) id ≡ true
unfolding contains_text
head_listed id ids = ground (arith, eq_refl id)

tail_listed :
    (id x : String) (ids : List String)
    → contains_text ids x ≡ true
    → contains_text (id ∷ ids) x ≡ true
unfolding contains_text
tail_listed id x ids h = ground (arith, h)

not_head :
    (id x : String) (ids : List String)
    → contains_text ids id ≡ false
    → contains_text ids x ≡ true
    → (id == x) ≡ false
not_head id x ids n h = elim (Bool-cases (id == x)) [
  | inl e ↦ ground (arith, n, subst (λ y. contains_text ids y ≡ true) (sym ((eq_iff id x).0 e)) h)
  | inr m ↦ m
]

none_seen :
    (known seen ids : List String)
    → IsDistinct ids
    → IsListed known seen ids
    → IsFresh known seen ids
none_seen known seen [] d l = tt
none_seen known seen (id ∷ ids) d l =
    let (a, b) = l id (head_listed id ids) in
    (
      a,
      b,
      none_seen known (seen ++ id ∷ []) ids d.1 (λ x h.
          let (c, k) = l x (tail_listed id x ids h) in
          (contains-append seen id x ∙ rw (c, not_head id x ids d.0 h), k)),
    )

all_in : (known seen ids : List String) → IsFresh known seen ids → IsListed known seen ids
unfolding contains_text
all_in known seen [] f x h = ground (arith, h)
all_in known seen (id ∷ ids) f x h = elim (Bool-cases (id == x)) [
  | inl e ↦
      let p : id ≡ x = (eq_iff id x).0 e in
      (
        subst (λ y. contains_text seen y ≡ false) p f.0,
        subst (λ y. contains_text known y ≡ true) p f.1,
      )
  | inr n ↦
      let (a, k) = all_in known (seen ++ id ∷ []) ids f.2 x (ground (arith, n, h)) in
      (ground (arith, a, contains-append seen id x), k)
]

seen_once :
    (known seen ids : List String)
    → IsFresh known seen ids
    → IsDistinct seen
    → IsDistinct (seen ++ ids)
seen_once known seen [] f d = subst IsDistinct (sym (append-nil seen)) d
seen_once known seen (id ∷ ids) f d =
    subst IsDistinct (append_assoc seen (id ∷ []) ids)
      (seen_once known (seen ++ id ∷ []) ids f.2 (append-IsDistinct seen id d f.0))

-- completeOrderedIds accepts exactly lists without a repetition of known ids; the result begins
-- with the list, and the other known ids follow in their order.
pub complete_ordered_ids_iff :
    (ids known out : List String)
    → (complete_ordered_ids ids known ≡ ok out) ↔ (
        IsDistinct ids
        × ((x : String) → contains_text ids x ≡ true → contains_text known x ≡ true)
        × (out ≡ ids ++ others ids known))
unfolding complete_ordered_ids contains_text
complete_ordered_ids_iff ids known out = (
  λ h. accepted (take_ids known [] ids) refl h,
  λ (d, k, e).
      ap (append_others known)
        (takes known [] ids (none_seen known [] ids d (λ x h. (refl, k x h))))
      ∙ ap (λ l. ok l) (sym e),
)
  where
    accepted :
        (r : Result OrderError (List String))
        → take_ids known [] ids ≡ r
        → append_others known r ≡ ok out
        → IsDistinct ids
          × ((x : String) → contains_text ids x ≡ true → contains_text known x ≡ true)
          × (out ≡ ids ++ others ids known)
    accepted (err e) q h = ground (arith, h)
    accepted (ok l) q h =
        let (f, e) = taken known [] ids l q in
        (
          seen_once known [] ids f tt,
          λ x m. (all_in known [] ids f x m).1,
          sym (ok_same (append_others known (ok l)) (l ++ others l known) out refl h)
              ∙ ap (λ m. m ++ others m known) e,
        )

-- The completed order has the known ids and no others.
pub complete_keeps :
    (ids known : List String)
    → ((x : String) → contains_text ids x ≡ true → contains_text known x ≡ true)
    → (x : String) → contains_text (ids ++ others ids known) x ≡ contains_text known x
complete_keeps ids known k x = elim (Bool-cases (contains_text ids x)) [
  | inl h ↦
      ground
        (arith, contains-concat ids (others ids known) x, contains-others ids known x, h, k x h)
  | inr n ↦ ground (arith, contains-concat ids (others ids known) x, contains-others ids known x, n)
]

others-IsDistinct : (seen ids : List String) → IsDistinct ids → IsDistinct (others seen ids)
unfolding others
others-IsDistinct seen [] d = d
others-IsDistinct seen (id ∷ ids) d =
    if_both (λ (l : List String). IsDistinct l) (contains_text seen id) _ _
      (λ _. others-IsDistinct seen ids d.1)
      (λ _. (contains-others seen ids id ∙ rw d.0, others-IsDistinct seen ids d.1))

concat-IsDistinct :
    (xs ys : List String)
    → IsDistinct xs
    → IsDistinct ys
    → ((x : String) → contains_text ys x ≡ true → contains_text xs x ≡ false)
    → IsDistinct (xs ++ ys)
unfolding contains_text
concat-IsDistinct [] ys d e a = e
concat-IsDistinct (x ∷ xs) ys d e a = (
  contains-concat xs ys x ∙ rw (d.0, not_in (contains_text ys x) refl),
  concat-IsDistinct xs ys d.1 e (λ y h. ground (arith, a y h)),
)
  where
    not_in : (b : Bool) → contains_text ys x ≡ b → b ≡ false
    not_in true q = ground (arith, a x q, eq_refl x)
    not_in false q = refl

pub complete-IsDistinct :
    (ids known : List String)
    → IsDistinct ids
    → IsDistinct known
    → IsDistinct (ids ++ others ids known)
complete-IsDistinct ids known d k =
    concat-IsDistinct ids (others ids known) d (others-IsDistinct ids known k)
      (λ x h. ground (arith, h, contains-others ids known x))
