-- ===== src/History/Loop.antt =====
-- The loop of Write in writer.go: its rounds, its fuel, and the rule for invariants.
use term_bridge.Prelude.{
  ℕ, zero, suc, ◌≤◌, ◌<◌, ◌≡◌, refl, inl, inr, none, some, List, [], ◌∷◌, arith, length, drop,
  length-drop, Option-cases,
}
use term_bridge.History.{Writer, index_newline, take_line, keep_partial, write_loop}

pub index_newline_in_range : (p : List ℕ) (i : ℕ) → index_newline p ≡ some i → i < length p
unfolding index_newline
index_newline_in_range [] i h = absurd (ground arith)
index_newline_in_range (b ∷ p) zero h = omega arith
index_newline_in_range (b ∷ p) (suc i) h = ground (arith, index_newline_in_range p i)

-- One round.
module _ (f b : ℕ) (p : List ℕ) (w : Writer) where
  pub write_loop_last :
      index_newline (b ∷ p) ≡ none → write_loop (suc f) (b ∷ p) w ≡ keep_partial w (b ∷ p)
  unfolding write_loop
  write_loop_last e = rw (e, write_loop)

  pub write_loop_round :
      (i : ℕ)
      → index_newline (b ∷ p) ≡ some i
      → write_loop (suc f) (b ∷ p) w ≡ write_loop f (drop (suc i) (b ∷ p)) (take_line w (b ∷ p) i)
  unfolding write_loop
  write_loop_round i e = rw (e, write_loop)

-- Any fuel that is at least the number of bytes gives the same writer.
pub write_loop_fuel :
    (f g : ℕ) (p : List ℕ) (w : Writer)
    → length p ≤ f
    → length p ≤ g
    → write_loop f p w ≡ write_loop g p w
unfolding write_loop
write_loop_fuel zero zero p w h k = refl
write_loop_fuel zero (suc g) [] w h k = refl
write_loop_fuel zero (suc g) (b ∷ p) w h k = absurd (omega arith)
write_loop_fuel (suc f) zero [] w h k = refl
write_loop_fuel (suc f) zero (b ∷ p) w h k = absurd (omega arith)
write_loop_fuel (suc f) (suc g) [] w h k = refl
write_loop_fuel (suc f) (suc g) (b ∷ p) w h k = elim (Option-cases (index_newline (b ∷ p))) [
  | inl e ↦ rw (e, write_loop)
  | inr (i, e) ↦
      let shorter : length (drop (suc i) (b ∷ p)) ≤ length p =
        omega (arith, length-drop (suc i) (b ∷ p)) in
      rw (e, write_loop)
        (write_loop_fuel f g (drop (suc i) (b ∷ p)) (take_line w (b ∷ p) i) (omega arith)
          (omega arith))
]

-- What every round keeps, the loop keeps.
pub write_loop_inv :
    (P : Writer → Type 0)
    → ((w : Writer) (p : List ℕ) (i : ℕ) → P w → P (take_line w p i))
    → ((w : Writer) (p : List ℕ) → P w → P (keep_partial w p))
    → (f : ℕ) (p : List ℕ) (w : Writer) → P w
    → P (write_loop f p w)
unfolding write_loop
write_loop_inv P line rest zero p w h = h
write_loop_inv P line rest (suc f) [] w h = h
write_loop_inv P line rest (suc f) (b ∷ p) w h = elim (Option-cases (index_newline (b ∷ p))) [
  | inl e ↦ rw (e, write_loop) (rest w (b ∷ p) h)
  | inr (i, e) ↦
      rw (e, write_loop)
        (write_loop_inv P line rest f (drop (suc i) (b ∷ p)) (take_line w (b ∷ p) i)
          (line w (b ∷ p) i h))
]
