-- ===== src/History/Tests.antt =====
-- Runs of the history writer on small inputs.
use term_bridge.Prelude.{◌≡◌, refl, false, true, List, [], ◌∷◌, arith}
use term_bridge.History.{
  Writer, Config, wrote, failed, new_writer, index_newline, write_loop, flush_locked,
  flush_if_needed, write, finish_partial, close, trim_bytes, trim_lines, trim_by_bytes,
  trim_by_lines, trim, push_line, add_line, limit_partial, take_line, keep_partial,
}
use term_bridge.History.Run.{Call, writes, flushes, step, run, written, closed_history_complete}
use term_bridge.History.Loop.{write_loop_fuel}
use term_bridge.History.Close.{close_loses_partial}

abbrev wide : Config
wide = record { max_lines = 3; max_bytes = 100; max_line_bytes = 20 }

abbrev narrow : Config
narrow = record { max_lines = 2; max_bytes = 6; max_line_bytes = 4 }

-- "ab\ncd", a flush, then "e\n" and "f".
abbrev calls : List Call
calls =
    writes 1 wrote (97 ∷ 98 ∷ 10 ∷ 99 ∷ 100 ∷ [])
    ∷ flushes 2 wrote
    ∷ writes 3 (failed []) (101 ∷ 10 ∷ [])
    ∷ writes 4 wrote (102 ∷ [])
    ∷ []

closed_history_complete_example :
    (close 9 wrote (run (new_writer wide 0 []) calls)).0.file ≡ written calls
unfolding new_writer run step written write write_loop index_newline flush_locked flush_if_needed
    finish_partial close trim_bytes trim_lines trim_by_bytes trim_by_lines trim push_line add_line
    limit_partial take_line keep_partial
closed_history_complete_example = closed_history_complete wide 0 [] calls 9 refl

write_loop_fuel_example :
    write_loop 3 (97 ∷ 10 ∷ 98 ∷ []) (new_writer wide 0 [])
    ≡ write_loop 40 (97 ∷ 10 ∷ 98 ∷ []) (new_writer wide 0 [])
write_loop_fuel_example =
    write_loop_fuel 3 40 (97 ∷ 10 ∷ 98 ∷ []) (new_writer wide 0 []) (omega arith) (omega arith)

-- The unfinished line "abcd" under a limit of 6 bytes.
abbrev unfinished : Writer
unfinished = record {
  config = record { max_lines = 10; max_bytes = 6; max_line_bytes = 20 };
  lines = [];
  partial = 97 ∷ 98 ∷ 99 ∷ 100 ∷ [];
  truncated = false;
  pending = 4;
  last_flushed = 0;
  file = [];
}

close_loses_partial_example :
    ((close 9 wrote unfinished).0.file ≡ []) × ((close 9 wrote unfinished).0.truncated ≡ true)
close_loses_partial_example =
    close_loses_partial unfinished 97 (98 ∷ 99 ∷ 100 ∷ []) 9 refl refl (omega arith) (omega arith)
      (omega arith) (omega arith)
