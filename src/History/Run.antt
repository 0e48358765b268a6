-- ===== src/History/Run.antt =====
-- Any sequence of Write and Flush calls on a new writer of writer.go, then Close.
use term_bridge.Prelude.{
  ℕ, ◌≤◌, ◌<◌, ◌≡◌, refl, sym, ap, ◌∙◌, false, List, [], ◌∷◌, ◌++◌, append-nil, append_assoc, arith,
  length, length-append,
}
use term_bridge.History.{
  Writer, Config, WriteFile, wrote, new_writer, contents, join_lines, sum_lines, flush_locked,
  write, finish_partial, close, add_line, push_line, trim, trim_by_lines, trim_by_bytes,
}
use term_bridge.History.Bounds.{
  IsBounded, new_writer-IsBounded, write-IsBounded, flush_locked-IsBounded, close-IsBounded,
  finish_partial-IsBounded,
}
use term_bridge.History.Complete.{write_untruncated, close_untruncated, flush_locked-contents}

-- A call, with the time and what os.WriteFile does if it is reached.
pub data Call : Type 0 where
  writes : ℕ → WriteFile → List ℕ → Call
  flushes : ℕ → WriteFile → Call

unfoldable pub step : Writer → Call → Writer
step w (writes now io p) = (write now io p w).0
step w (flushes now io) = (flush_locked now io w).0

unfoldable pub run : Writer → List Call → Writer
run w [] = w
run w (c ∷ cs) = run (step w c) cs

-- The bytes that the calls hand over.
unfoldable pub written : List Call → List ℕ
written [] = []
written (writes now io p ∷ cs) = p ++ written cs
written (flushes now io ∷ cs) = written cs

step-IsBounded : (w : Writer) (c : Call) → IsBounded w → IsBounded (step w c)
unfolding step
step-IsBounded w (writes now io p) h = write-IsBounded now io p w h
step-IsBounded w (flushes now io) h = flush_locked-IsBounded now io w h

run-IsBounded : (w : Writer) (cs : List Call) → IsBounded w → IsBounded (run w cs)
unfolding run
run-IsBounded w [] h = h
run-IsBounded w (c ∷ cs) h = run-IsBounded (step w c) cs (step-IsBounded w c h)

-- After any calls on a new writer, and after a Close behind them, every positive limit of the
-- configuration holds: the number of kept lines, the bytes of the kept lines, the bytes of each
-- kept line and of the unfinished one; whether or not the writes to the file fail.
pub history-IsBounded :
    (c : Config) (start : ℕ) (old : List ℕ) (cs : List Call) (now : ℕ) (io : WriteFile)
    → let w = run (new_writer c start old) cs in IsBounded w × IsBounded (close now io w).0
history-IsBounded c start old cs now io =
    let h = run-IsBounded _ cs (new_writer-IsBounded c start old) in (h, close-IsBounded now io _ h)

run_untruncated :
    (w : Writer) (cs : List Call)
    → (run w cs).truncated ≡ false
    → (contents (run w cs) ≡ contents w ++ written cs) × (w.truncated ≡ false)
unfolding run written step
run_untruncated w [] h = (sym (append-nil (contents w)), h)
run_untruncated w (writes now io p ∷ cs) h =
    let rest = run_untruncated (write now io p w).0 cs h in
    let first = write_untruncated now io p w rest.1 in
    (rest.0 ∙ ap (λ l. l ++ written cs) first.0 ∙ append_assoc (contents w) p (written cs), first.1)
run_untruncated w (flushes now io ∷ cs) h =
    let rest = run_untruncated (flush_locked now io w).0 cs h in
    let first = flush_locked-contents now io w in
    (rest.0 ∙ ap (λ l. l ++ written cs) first.0, sym first.1 ∙ rest.1)

-- If `truncated` is unset after any calls on a new writer and a Close whose write to the file
-- succeeds, the file holds exactly the bytes of all the Write calls, in order.
pub closed_history_complete :
    (c : Config) (start : ℕ) (old : List ℕ) (cs : List Call) (now : ℕ)
    → let w = run (new_writer c start old) cs in
      (close now wrote w).0.truncated ≡ false → (close now wrote w).0.file ≡ written cs
unfolding new_writer
closed_history_complete c start old cs now h =
    let last = close_untruncated now (run (new_writer c start old) cs) h in
    last.0 ∙ (run_untruncated (new_writer c start old) cs last.1).0

length-join_lines : (ls : List (List ℕ)) → length (join_lines ls) ≡ sum_lines ls
length-join_lines [] = refl
length-join_lines (l ∷ ls) = omega (arith, length-append l (join_lines ls), length-join_lines ls)

partial-finish_partial :
    (w : Writer) (p : List ℕ) → w.partial ≡ p → (finish_partial w p).partial ≡ []
unfolding finish_partial
partial-finish_partial w [] e = e
partial-finish_partial w (b ∷ p) e = refl

config-finish_partial : (w : Writer) (p : List ℕ) → (finish_partial w p).config ≡ w.config
unfolding finish_partial add_line push_line trim trim_by_lines trim_by_bytes
config-finish_partial w [] = refl
config-finish_partial w (b ∷ p) = ground arith

-- A Close of a writer within its limits, whose write succeeds, leaves a file within MaxBytes.
pub close_file_bounded :
    (w : Writer) (now : ℕ)
    → IsBounded w
    → 0 < w.config.max_bytes
    → length (close now wrote w).0.file ≤ w.config.max_bytes
unfolding close flush_locked
close_file_bounded w now h pos =
    let u = finish_partial w w.partial in
    let c = config-finish_partial w w.partial in
    let fits : sum_lines u.lines ≤ w.config.max_bytes =
      rw c at ((finish_partial-IsBounded w w.partial h).bytes_fit (rw c pos)) in
    rw (partial-finish_partial w w.partial refl, append-nil, length-join_lines u.lines) fits
