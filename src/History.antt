-- ===== src/History.antt =====
-- internal/agent/infrastructure/storage/history/writer.go: the bounded history of one terminal.
-- The mutex is not modelled, since each method holds it throughout. A limit of 0 stands for every
-- limit that is not positive. The clock and the outcome of os.WriteFile are arguments.
pub mod Loop
pub mod Bounds
pub mod Complete
pub mod Run
pub mod Close
mod Tests
use term_bridge.Prelude.{
  ℕ, zero, suc, ◌+◌, ◌-◌, ◌*◌, Bool, true, false, ◌&&◌, ◌||◌, Option, none, some, List, [], ◌∷◌,
  ◌++◌, length, take, drop, ltb, leb, eqb, if◌then◌else◌,
}

pub record Config : Type 0 where
  pub max_lines : ℕ
  pub max_bytes : ℕ
  pub max_line_bytes : ℕ

-- `file` is the content of the file at w.path.
pub record Writer : Type 0 where
  pub config : Config
  pub lines : List (List ℕ)
  pub partial : List ℕ
  pub truncated : Bool
  pub pending : ℕ
  pub last_flushed : ℕ
  pub file : List ℕ

-- What os.WriteFile does: it writes the whole content, or fails and leaves some content behind.
pub data WriteFile : Type 0 where
  wrote : WriteFile
  failed : List ℕ → WriteFile

pub data Flushed : Type 0 where
  flush_ok flush_failed : Flushed

abbrev pub flush_pending_bytes : ℕ
flush_pending_bytes = 64 * 1024

-- 200 milliseconds, in nanoseconds.
abbrev pub flush_interval : ℕ
flush_interval = 200 * 1000000

pub new_writer : Config → ℕ → List ℕ → Writer
new_writer c now old = record {
  config = c;
  lines = [];
  partial = [];
  truncated = false;
  pending = 0;
  last_flushed = now;
  file = old;
}

-- The bytes of the kept lines.
abbrev pub sum_lines : List (List ℕ) → ℕ
sum_lines [] = 0
sum_lines (l ∷ ls) = length l + sum_lines ls

abbrev pub total_bytes : List (List ℕ) → List ℕ → ℕ
total_bytes lines partial = sum_lines lines + length partial

-- The two loops of `trim`. What a `let` binds waits for the test.
pub trim_lines : ℕ → List (List ℕ) → Bool → List (List ℕ) × Bool
trim_lines limit [] tr = ([], tr)
trim_lines limit (l ∷ ls) tr =
    let rest = trim_lines limit ls true in
    if ltb limit (length (l ∷ ls)) then rest else (l ∷ ls, tr)

pub trim_bytes : ℕ → List ℕ → List (List ℕ) → Bool → List (List ℕ) × Bool
trim_bytes limit partial [] tr = ([], tr)
trim_bytes limit partial (l ∷ ls) tr =
    let rest = trim_bytes limit partial ls true in
    if ltb limit (total_bytes (l ∷ ls) partial) then rest else (l ∷ ls, tr)

pub trim_by_lines : Writer → Writer
trim_by_lines w =
    if ltb 0 w.config.max_lines
    then (let (ls, tr) = trim_lines w.config.max_lines w.lines w.truncated in
        record w { lines = ls; truncated = tr })
    else w

pub trim_by_bytes : Writer → Writer
trim_by_bytes w =
    if ltb 0 w.config.max_bytes
    then (let (ls, tr) = trim_bytes w.config.max_bytes w.partial w.lines w.truncated in
        record w { lines = ls; truncated = tr })
    else w

pub trim : Writer → Writer
trim w = trim_by_bytes (trim_by_lines w)

abbrev pub is_too_long : Writer → List ℕ → Bool
is_too_long w line = ltb 0 w.config.max_line_bytes && ltb w.config.max_line_bytes (length line)

-- The line as addLine stores it, before the trim.
pub push_line : Writer → List ℕ → Writer
push_line w line =
    if is_too_long w line
    then record w { lines = w.lines ++ take w.config.max_line_bytes line ∷ []; truncated = true }
    else record w { lines = w.lines ++ line ∷ [] }

pub add_line : Writer → List ℕ → Writer
add_line w line = trim (push_line w line)

pub limit_partial : Writer → Writer
limit_partial w =
    if is_too_long w w.partial
    then record w { partial = take w.config.max_line_bytes w.partial; truncated = true }
    else w

-- bytes.IndexByte(p, '\n')
pub index_newline : List ℕ → Option ℕ
index_newline [] = none
index_newline (b ∷ p) =
    if eqb b 10 then some 0 else elim (index_newline p) [ none ↦ none | some i ↦ some (suc i) ]

-- One round with a newline at `i`: the line is completed and stored.
pub take_line : Writer → List ℕ → ℕ → Writer
take_line w p i = add_line (record w { partial = [] }) (w.partial ++ take (suc i) p)

-- The last round: what is left of `p` has no newline.
pub keep_partial : Writer → List ℕ → Writer
keep_partial w p = limit_partial (record w { partial = w.partial ++ p })

-- The loop of Write. Each round but the last consumes a byte, so the length of `p` is enough fuel.
pub write_loop : ℕ → List ℕ → Writer → Writer
write_loop zero p w = w
write_loop (suc f) [] w = w
write_loop (suc f) (b ∷ p) w = elim (index_newline (b ∷ p)) [
  | none ↦ keep_partial w (b ∷ p)
  | some i ↦ write_loop f (drop (suc i) (b ∷ p)) (take_line w (b ∷ p) i)
]

-- What flushLocked writes: the kept lines, then the unfinished one.
abbrev pub join_lines : List (List ℕ) → List ℕ
join_lines [] = []
join_lines (l ∷ ls) = l ++ join_lines ls

abbrev pub contents : Writer → List ℕ
contents w = join_lines w.lines ++ w.partial

pub flush_locked : ℕ → WriteFile → Writer → Writer × Flushed
flush_locked now wrote w =
    (record w { file = contents w; pending = 0; last_flushed = now }, flush_ok)
flush_locked now (failed left) w = (record w { file = left }, flush_failed)

pub flush_if_needed : ℕ → WriteFile → Writer → Writer × Flushed
flush_if_needed now io w =
    if leb flush_pending_bytes w.pending || leb flush_interval (now - w.last_flushed)
    then flush_locked now io w
    else (w, flush_ok)

pub write : ℕ → WriteFile → List ℕ → Writer → Writer × ℕ × Flushed
write now io [] w = (w, 0, flush_ok)
write now io (b ∷ p) w =
    let w' = write_loop (length (b ∷ p)) (b ∷ p) w in
    let (u, r) = flush_if_needed now io (record w' { pending = w'.pending + length (b ∷ p) }) in
    (u, length (b ∷ p), r)

-- The unfinished line is stored while w.partial still holds it.
pub finish_partial : Writer → List ℕ → Writer
finish_partial w [] = w
finish_partial w (b ∷ p) = record (add_line w (b ∷ p)) { partial = [] }

pub close : ℕ → WriteFile → Writer → Writer × Flushed
close now io w = flush_locked now io (finish_partial w w.partial)
