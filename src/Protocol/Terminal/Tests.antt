-- ===== src/Protocol/Terminal/Tests.antt =====
-- Runs of the checks on concrete messages.
use term_bridge.Prelude.{ℕ, ◌≡◌, refl, err, some, List, pos, negsuc, Option}
use term_bridge.Protocol.Terminal.{
  ClientControlMessage, validate_size, type_resize, cols_out_of_range,
}

abbrev resize_message : ClientControlMessage
resize_message = record { type = type_resize; cols = pos 120; rows = pos 40; nonce = "" }

abbrev always_resize : List ℕ → Option ClientControlMessage
always_resize bytes = some resize_message

too_wide : validate_size (pos 1001) (negsuc 4) ≡ err (cols_out_of_range (pos 1001))
unfolding validate_size
too_wide = refl
