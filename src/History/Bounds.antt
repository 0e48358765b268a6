-- ===== src/History/Bounds.antt =====
-- The limits of the history configuration hold after every call of writer.go.
use term_bridge.Prelude.{
  ℕ, ◌+◌, ◌≤◌, ◌<◌, ◌≡◌, refl, ◌⊎◌, inl, inr, Bool, true, false, List, [], ◌∷◌, ◌++◌, arith, length,
  length-take-le, All, All-append, Bool-cases, ltb,
}
use term_bridge.History.{
  Writer, Config, WriteFile, wrote, failed, new_writer, is_too_long, sum_lines, trim_lines,
  trim_bytes, trim_by_lines, trim_by_bytes, trim, push_line, add_line, limit_partial, take_line,
  keep_partial, flush_locked, flush_if_needed, write, finish_partial, close,
}
use term_bridge.History.Loop.{write_loop_inv}

abbrev pub FitsLine : ℕ → List ℕ → Type 0
FitsLine limit l = 0 < limit → length l ≤ limit

pub record IsBounded (w : Writer) : Type 0 where
  pub lines_fit : 0 < w.config.max_lines → length w.lines ≤ w.config.max_lines
  pub bytes_fit : 0 < w.config.max_bytes → sum_lines w.lines ≤ w.config.max_bytes
  pub each_fits : All (FitsLine w.config.max_line_bytes) w.lines
  pub partial_fits : FitsLine w.config.max_line_bytes w.partial

module _ (limit : ℕ) where
  length-trim_lines : (ls : List (List ℕ)) (tr : Bool) → length (trim_lines limit ls tr).0 ≤ limit
  unfolding trim_lines
  length-trim_lines [] tr = omega arith
  length-trim_lines (l ∷ ls) tr = ground (arith, length-trim_lines ls true)

  sum_lines-trim_bytes :
      (p : List ℕ) (ls : List (List ℕ)) (tr : Bool) → sum_lines (trim_bytes limit p ls tr).0 ≤ limit
  unfolding trim_bytes
  sum_lines-trim_bytes p [] tr = omega arith
  sum_lines-trim_bytes p (l ∷ ls) tr = ground (arith, sum_lines-trim_bytes p ls true)

  length-trim_bytes :
      (p : List ℕ) (ls : List (List ℕ)) (tr : Bool)
      → length (trim_bytes limit p ls tr).0 ≤ length ls
  unfolding trim_bytes
  length-trim_bytes p [] tr = omega arith
  length-trim_bytes p (l ∷ ls) tr = ground (arith, length-trim_bytes p ls true)

  module _ (P : List ℕ → Type 0) where
    All-trim_lines : (ls : List (List ℕ)) (tr : Bool) → All P ls → All P (trim_lines limit ls tr).0
    unfolding trim_lines
    All-trim_lines [] tr h = tt
    All-trim_lines (l ∷ ls) tr h = elim (Bool-cases (ltb limit (length (l ∷ ls)))) [
      | inl e ↦ rw (e, trim_lines) (All-trim_lines ls true h.1)
      | inr e ↦ rw (e, trim_lines) h
    ]

    All-trim_bytes :
        (p : List ℕ) (ls : List (List ℕ)) (tr : Bool)
        → All P ls
        → All P (trim_bytes limit p ls tr).0
    unfolding trim_bytes
    All-trim_bytes p [] tr h = tt
    All-trim_bytes p (l ∷ ls) tr h = elim (Bool-cases (ltb limit (sum_lines (l ∷ ls) + length p))) [
      | inl e ↦ rw (e, trim_bytes) (All-trim_bytes p ls true h.1)
      | inr e ↦ rw (e, trim_bytes) h
    ]

-- What holds between the two loops of the trim.
record IsShort (w : Writer) : Type 0 where
  lines_fit : 0 < w.config.max_lines → length w.lines ≤ w.config.max_lines
  each_fits : All (FitsLine w.config.max_line_bytes) w.lines
  partial_fits : FitsLine w.config.max_line_bytes w.partial

trim_by_lines-IsShort :
    (w : Writer)
    → All (FitsLine w.config.max_line_bytes) w.lines
    → FitsLine w.config.max_line_bytes w.partial
    → IsShort (trim_by_lines w)
unfolding trim_by_lines
trim_by_lines-IsShort w each part =
    let c = w.config in
    elim (Bool-cases (ltb 0 c.max_lines)) [
      | inl e ↦
          rw (e, trim_by_lines)
            (record {
              lines_fit = λ _. length-trim_lines c.max_lines w.lines w.truncated;
              each_fits =
                  All-trim_lines c.max_lines (FitsLine c.max_line_bytes) w.lines w.truncated each;
              partial_fits = part;
            })
      | inr e ↦
          rw (e, trim_by_lines)
            (record {
              lines_fit = λ h. absurd (ground (arith, h, e));
              each_fits = each;
              partial_fits = part;
            })
    ]

trim_by_bytes-IsBounded : (w : Writer) → IsShort w → IsBounded (trim_by_bytes w)
unfolding trim_by_bytes
trim_by_bytes-IsBounded w h =
    let c = w.config in
    elim (Bool-cases (ltb 0 c.max_bytes)) [
      | inl e ↦
          rw (e, trim_by_bytes)
            (record {
              lines_fit = λ pos. omega (
                arith,
                h.lines_fit pos,
                length-trim_bytes c.max_bytes w.partial w.lines w.truncated,
              );
              bytes_fit = λ _. sum_lines-trim_bytes c.max_bytes w.partial w.lines w.truncated;
              each_fits =
                  All-trim_bytes c.max_bytes (FitsLine c.max_line_bytes) w.partial w.lines
                    w.truncated h.each_fits;
              partial_fits = h.partial_fits;
            })
      | inr e ↦
          rw (e, trim_by_bytes)
            (record {
              lines_fit = h.lines_fit;
              bytes_fit = λ pos. absurd (ground (arith, pos, e));
              each_fits = h.each_fits;
              partial_fits = h.partial_fits;
            })
    ]

add_line-IsBounded :
    (w : Writer) (line : List ℕ)
    → All (FitsLine w.config.max_line_bytes) w.lines
    → FitsLine w.config.max_line_bytes w.partial
    → IsBounded (add_line w line)
unfolding add_line trim push_line trim_by_lines
add_line-IsBounded w line each part = trim_by_bytes-IsBounded _ (pushed (Bool-cases long))
  where
    limit : ℕ
    limit = w.config.max_line_bytes

    long : Bool
    long = is_too_long w line

    pushed : (long ≡ true) ⊎ (long ≡ false) → IsShort (trim_by_lines (push_line w line))
    pushed (inl e) =
        rw (e, push_line)
          (trim_by_lines-IsShort _
            (All-append (FitsLine limit) w.lines _ each ((λ _. length-take-le limit line), tt))
            part)
    pushed (inr e) =
        rw (e, push_line)
          (trim_by_lines-IsShort _
            (All-append (FitsLine limit) w.lines _ each ((λ pos. ground (arith, e)), tt)) part)

take_line-IsBounded : (w : Writer) (p : List ℕ) (i : ℕ) → IsBounded w → IsBounded (take_line w p i)
unfolding take_line
take_line-IsBounded w p i h = add_line-IsBounded _ _ h.each_fits (λ _. omega arith)

keep_partial-IsBounded : (w : Writer) (p : List ℕ) → IsBounded w → IsBounded (keep_partial w p)
unfolding keep_partial limit_partial
keep_partial-IsBounded w p h = elim (Bool-cases (is_too_long w (w.partial ++ p))) [
  | inl e ↦
      rw (e, limit_partial)
        (record {
          lines_fit = h.lines_fit;
          bytes_fit = h.bytes_fit;
          each_fits = h.each_fits;
          partial_fits = λ _. length-take-le w.config.max_line_bytes (w.partial ++ p);
        })
  | inr e ↦
      rw (e, limit_partial)
        (record {
          lines_fit = h.lines_fit;
          bytes_fit = h.bytes_fit;
          each_fits = h.each_fits;
          partial_fits = λ pos. ground (arith, e);
        })
]

-- The predicate reads three fields.
same-IsBounded :
    {w u : Writer}
    → IsBounded w
    → u.config ≡ w.config
    → u.lines ≡ w.lines
    → u.partial ≡ w.partial
    → IsBounded u
same-IsBounded h c l p = record {
  lines_fit = rw (c, l) h.lines_fit;
  bytes_fit = rw (c, l) h.bytes_fit;
  each_fits = rw (c, l) h.each_fits;
  partial_fits = rw (c, p) h.partial_fits;
}

pub flush_locked-IsBounded :
    (now : ℕ) (io : WriteFile) (w : Writer) → IsBounded w → IsBounded (flush_locked now io w).0
unfolding flush_locked
flush_locked-IsBounded now wrote w h = same-IsBounded h refl refl refl
flush_locked-IsBounded now (failed left) w h = same-IsBounded h refl refl refl

flush_if_needed-IsBounded :
    (now : ℕ) (io : WriteFile) (w : Writer) → IsBounded w → IsBounded (flush_if_needed now io w).0
unfolding flush_if_needed
flush_if_needed-IsBounded now io w h = ground (arith, flush_locked-IsBounded now io w h, h)

-- A new writer is within its limits.
pub new_writer-IsBounded : (c : Config) (now : ℕ) (old : List ℕ) → IsBounded (new_writer c now old)
unfolding new_writer
new_writer-IsBounded c now old = record {
  lines_fit = omega arith;
  bytes_fit = omega arith;
  each_fits = tt;
  partial_fits = omega arith;
}

-- Write keeps every limit of the configuration: the number of kept lines, their bytes, and the
-- bytes of each kept line and of the unfinished one, whatever is written and whether the flush fails.
pub write-IsBounded :
    (now : ℕ) (io : WriteFile) (p : List ℕ) (w : Writer)
    → IsBounded w
    → IsBounded (write now io p w).0
unfolding write
write-IsBounded now io [] w h = h
write-IsBounded now io (b ∷ p) w h =
    let n = length (b ∷ p) in
    let v = write_loop_inv IsBounded take_line-IsBounded keep_partial-IsBounded n (b ∷ p) w h in
    flush_if_needed-IsBounded now io _ (same-IsBounded v refl refl refl)

pub finish_partial-IsBounded :
    (w : Writer) (p : List ℕ) → IsBounded w → IsBounded (finish_partial w p)
unfolding finish_partial
finish_partial-IsBounded w [] h = h
finish_partial-IsBounded w (b ∷ p) h =
    let v = add_line-IsBounded w (b ∷ p) h.each_fits h.partial_fits in
    record {
      lines_fit = v.lines_fit;
      bytes_fit = v.bytes_fit;
      each_fits = v.each_fits;
      partial_fits = omega arith;
    }

-- Close keeps every limit of the configuration.
pub close-IsBounded :
    (now : ℕ) (io : WriteFile) (w : Writer) → IsBounded w → IsBounded (close now io w).0
unfolding close
close-IsBounded now io w h =
    flush_locked-IsBounded now io _ (finish_partial-IsBounded w w.partial h)
