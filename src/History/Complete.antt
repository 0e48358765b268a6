-- ===== src/History/Complete.antt =====
-- While writer.go has not set `truncated`, it has kept every byte that was written.
use term_bridge.Prelude.{
  ℕ, zero, suc, ◌+◌, ◌≤◌, ◌≡◌, refl, sym, ap, ◌∙◌, inl, inr, Bool, true, false, List, [], ◌∷◌, ◌++◌,
  append-nil, append_assoc, arith, length, length-drop, take, drop, take-append-drop, Bool-cases,
  Option-cases,
}
use term_bridge.History.{
  Writer, WriteFile, wrote, failed, is_too_long, trim_lines, trim_bytes, trim_by_lines,
  trim_by_bytes, trim, push_line, add_line, limit_partial, take_line, keep_partial, index_newline,
  write_loop, join_lines, contents, flush_locked, flush_if_needed, write, finish_partial, close,
}
use mathlib.Core.Bool.{false≢true}
use term_bridge.History.Loop.{write_loop_inv, write_loop_last, write_loop_round}

join_lines-append : (xs ys : List (List ℕ)) → join_lines (xs ++ ys) ≡ join_lines xs ++ join_lines ys
join_lines-append [] ys = refl
join_lines-append (x ∷ xs) ys =
    ap (◌++◌ x) (join_lines-append xs ys) ∙ sym (append_assoc x (join_lines xs) (join_lines ys))

module _ (limit : ℕ) where
  trim_lines-true : (ls : List (List ℕ)) → (trim_lines limit ls true).1 ≡ true
  unfolding trim_lines
  trim_lines-true [] = refl
  trim_lines-true (l ∷ ls) = ground (arith, trim_lines-true ls)

  trim_lines-false :
      (ls : List (List ℕ)) (tr : Bool)
      → (trim_lines limit ls tr).1 ≡ false
      → ((trim_lines limit ls tr).0 ≡ ls) × (tr ≡ false)
  unfolding trim_lines
  trim_lines-false [] tr h = (refl, h)
  trim_lines-false (l ∷ ls) tr h = ground (arith, trim_lines-true ls)

  trim_bytes-true : (p : List ℕ) (ls : List (List ℕ)) → (trim_bytes limit p ls true).1 ≡ true
  unfolding trim_bytes
  trim_bytes-true p [] = refl
  trim_bytes-true p (l ∷ ls) = ground (arith, trim_bytes-true p ls)

  trim_bytes-false :
      (p : List ℕ) (ls : List (List ℕ)) (tr : Bool)
      → (trim_bytes limit p ls tr).1 ≡ false
      → ((trim_bytes limit p ls tr).0 ≡ ls) × (tr ≡ false)
  unfolding trim_bytes
  trim_bytes-false p [] tr h = (refl, h)
  trim_bytes-false p (l ∷ ls) tr h = ground (arith, trim_bytes-true p ls)

-- A trim that sets no flag changes nothing.
trim_untruncated :
    (w : Writer) → (trim w).truncated ≡ false → ((trim w).lines ≡ w.lines) × (w.truncated ≡ false)
unfolding trim trim_by_lines trim_by_bytes
trim_untruncated w h = ground (
  arith,
  trim_lines-false w.config.max_lines w.lines w.truncated,
  trim_bytes-false w.config.max_bytes w.partial w.lines w.truncated,
  trim_bytes-false w.config.max_bytes w.partial
      (trim_lines w.config.max_lines w.lines w.truncated).0
      (trim_lines w.config.max_lines w.lines w.truncated).1,
)

partial-trim : (w : Writer) → (trim w).partial ≡ w.partial
unfolding trim trim_by_lines trim_by_bytes
partial-trim w = ground arith

add_line_untruncated :
    (w : Writer) (line : List ℕ)
    → (add_line w line).truncated ≡ false
    → ((add_line w line).lines ≡ w.lines ++ line ∷ []) × (w.truncated ≡ false)
unfolding add_line push_line
add_line_untruncated w line h = ground (arith, trim_untruncated (push_line w line))

partial-add_line : (w : Writer) (line : List ℕ) → (add_line w line).partial ≡ w.partial
unfolding add_line push_line
partial-add_line w line = ground (arith, partial-trim (push_line w line))

-- A round that sets no flag appends what it consumes.
take_line_untruncated :
    (w : Writer) (p : List ℕ) (i : ℕ)
    → (take_line w p i).truncated ≡ false
    → (contents (take_line w p i) ≡ contents w ++ take (suc i) p) × (w.truncated ≡ false)
unfolding take_line
take_line_untruncated w p i h =
    let line = w.partial ++ take (suc i) p in
    let bare = record w { partial = [] } in
    let facts = add_line_untruncated bare line h in
    (
      rw (partial-add_line bare line, facts.0, append-nil, join_lines-append)
          (simp (append-nil, append_assoc)),
      facts.1,
    )

keep_partial_untruncated :
    (w : Writer) (p : List ℕ)
    → (keep_partial w p).truncated ≡ false
    → (contents (keep_partial w p) ≡ contents w ++ p) × (w.truncated ≡ false)
unfolding keep_partial limit_partial
keep_partial_untruncated w p h =
    let short : is_too_long w (w.partial ++ p) ≡ false = ground arith in
    rw (short, limit_partial) (sym (append_assoc (join_lines w.lines) w.partial p), ground arith)

not_true : {b : Bool} → (b ≡ true → ⊥) → b ≡ false
not_true {b} h = elim (Bool-cases b) [ inl e ↦ absurd (h e) | inr e ↦ e ]

-- The flag is never taken back.
write_loop_truncated :
    (f : ℕ) (p : List ℕ) (w : Writer) → w.truncated ≡ true → (write_loop f p w).truncated ≡ true
write_loop_truncated =
    write_loop_inv (λ w. w.truncated ≡ true)
      (λ w p i h. stays (take_line w p i).truncated (λ e. (take_line_untruncated w p i e).1) h)
      (λ w p h. stays (keep_partial w p).truncated (λ e. (keep_partial_untruncated w p e).1) h)
  where
    stays : {a : Bool} (b : Bool) → (b ≡ false → a ≡ false) → a ≡ true → b ≡ true
    stays true k h = refl
    stays false k h = absurd (false≢true (sym (k refl) ∙ h))

write_loop_untruncated :
    (f : ℕ) (p : List ℕ) (w : Writer)
    → length p ≤ f
    → (write_loop f p w).truncated ≡ false
    → contents (write_loop f p w) ≡ contents w ++ p
unfolding write_loop
write_loop_untruncated zero [] w fits h = sym (append-nil (contents w))
write_loop_untruncated zero (b ∷ p) w fits h = absurd (omega arith)
write_loop_untruncated (suc f) [] w fits h = sym (append-nil (contents w))
write_loop_untruncated (suc f) (b ∷ p) w fits h = elim (Option-cases (index_newline (b ∷ p))) [
  | inl e ↦
      rw (write_loop_last f b p w e)
        (keep_partial_untruncated w (b ∷ p) (rw (write_loop_last f b p w e) at h)).0
  | inr (i, e) ↦
      let h' = rw (write_loop_round f b p w i e) at h in
      let shorter : length (drop (suc i) (b ∷ p)) ≤ f =
        omega (arith, length-drop (suc i) (b ∷ p)) in
      let w' = take_line w (b ∷ p) i in
      let clean : w'.truncated ≡ false =
        not_true (λ t. false≢true (sym h' ∙ write_loop_truncated f _ w' t)) in
      rw (write_loop_round f b p w i e) (
        write_loop_untruncated f _ w' shorter h'
        ∙ ap (λ c. c ++ drop (suc i) (b ∷ p)) (take_line_untruncated w (b ∷ p) i clean).0
        ∙ append_assoc (contents w) _ _
        ∙ ap (◌++◌ (contents w)) (take-append-drop (suc i) (b ∷ p)))
]

pub flush_locked-contents :
    (now : ℕ) (io : WriteFile) (w : Writer)
    → (contents (flush_locked now io w).0 ≡ contents w)
      × ((flush_locked now io w).0.truncated ≡ w.truncated)
unfolding flush_locked
flush_locked-contents now wrote w = (refl, refl)
flush_locked-contents now (failed left) w = (refl, refl)

flush_if_needed-contents :
    (now : ℕ) (io : WriteFile) (w : Writer)
    → (contents (flush_if_needed now io w).0 ≡ contents w)
      × ((flush_if_needed now io w).0.truncated ≡ w.truncated)
unfolding flush_if_needed
flush_if_needed-contents now io w = ground (arith, flush_locked-contents now io w)

-- A Write that leaves the flag unset has appended exactly its bytes.
pub write_untruncated :
    (now : ℕ) (io : WriteFile) (p : List ℕ) (w : Writer)
    → (write now io p w).0.truncated ≡ false
    → (contents (write now io p w).0 ≡ contents w ++ p) × (w.truncated ≡ false)
unfolding write
write_untruncated now io [] w h = (sym (append-nil (contents w)), h)
write_untruncated now io (b ∷ p) w h =
    let n = length (b ∷ p) in
    let v = write_loop n (b ∷ p) w in
    let same = flush_if_needed-contents now io (record v { pending = v.pending + n }) in
    let clean : v.truncated ≡ false = sym same.1 ∙ h in
    (
      same.0 ∙ write_loop_untruncated n (b ∷ p) w (omega arith) clean,
      not_true (λ t. false≢true (sym clean ∙ write_loop_truncated n (b ∷ p) w t)),
    )

finish_partial_untruncated :
    (w : Writer) (p : List ℕ)
    → w.partial ≡ p
    → (finish_partial w p).truncated ≡ false
    → (contents (finish_partial w p) ≡ contents w) × (w.truncated ≡ false)
unfolding finish_partial
finish_partial_untruncated w [] e h = (refl, h)
finish_partial_untruncated w (b ∷ p) e h =
    let facts = add_line_untruncated w (b ∷ p) h in
    (rw (append-nil, facts.0, join_lines-append, append-nil, e) refl, facts.1)

-- A Close that leaves the flag unset has written exactly the contents of the writer to the file.
pub close_untruncated :
    (now : ℕ) (w : Writer)
    → (close now wrote w).0.truncated ≡ false
    → ((close now wrote w).0.file ≡ contents w) × (w.truncated ≡ false)
unfolding close flush_locked
close_untruncated now w h = finish_partial_untruncated w w.partial refl h
