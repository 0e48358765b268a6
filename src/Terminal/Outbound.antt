-- ===== src/Terminal/Outbound.antt =====
-- The frames that a client's queue holds: Outbound in
-- internal/agent/application/task/terminal/registry.go.
use Prim.Native.String.{len}
use term_bridge.Prelude.{ℕ, ◌+◌, List, length}
use term_bridge.Protocol.Terminal.{ServerControlMessage}

pub data Outbound : Type 0 where
  text : ServerControlMessage → Outbound
  binary : List ℕ → Outbound

unfoldable pub outbound_size : Outbound → ℕ
outbound_size (text m) = 512 + len m.message
outbound_size (binary bytes) = length bytes
