-- ===== src/History/Close.antt =====
-- Close in writer.go stores the unfinished line while it still counts as unfinished, so that the
-- trim counts its bytes twice.
use term_bridge.Prelude.{ℕ, ◌+◌, ◌≤◌, ◌<◌, ◌≡◌, true, false, ltb, List, [], ◌∷◌, arith, length}
use term_bridge.History.{
  Writer, wrote, trim_bytes, trim_lines, trim_by_bytes, trim_by_lines, trim, push_line, add_line,
  flush_locked, finish_partial, close,
}

-- An unfinished line that fits into MaxBytes, but not twice, is lost by Close: where no line is kept before it, it is no longer than MaxLineBytes and all limits are positive, the file becomes empty.
pub close_loses_partial :
    (w : Writer) (b : ℕ) (p : List ℕ) (now : ℕ)
    → w.lines ≡ []
    → w.partial ≡ b ∷ p
    → 1 ≤ w.config.max_lines
    → length (b ∷ p) ≤ w.config.max_line_bytes
    → length (b ∷ p) ≤ w.config.max_bytes
    → w.config.max_bytes < length (b ∷ p) + length (b ∷ p)
    → ((close now wrote w).0.file ≡ []) × ((close now wrote w).0.truncated ≡ true)
unfolding close flush_locked finish_partial add_line push_line trim trim_by_lines trim_by_bytes
    trim_bytes trim_lines
close_loses_partial w b p now none part lines width fits twice =
    let some_width : ltb 0 w.config.max_line_bytes ≡ true = ground (arith, width) in
    let fits_width : ltb w.config.max_line_bytes (length (b ∷ p)) ≡ false = ground (arith, width) in
    let some_lines : ltb 0 w.config.max_lines ≡ true = ground (arith, lines) in
    let fits_lines : ltb w.config.max_lines 1 ≡ false = ground (arith, lines) in
    rw (part, none, some_width, fits_width, some_lines, fits_lines) (ground arith)
