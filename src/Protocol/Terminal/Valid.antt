-- ===== src/Protocol/Terminal/Valid.antt =====
-- What the checks of protocol.go let through.
use Prim.Native.String.{len}
use term_bridge.Prelude.{
  ℕ, ◌≤◌, ◌≡◌, ◌↔◌, Option, some, List, eq_iff, arith, length, ok, ℤ, pos, negsuc, ◌⊎◌,
}
use term_bridge.Protocol.Terminal.{
  ClientControlMessage, validate_size, validate_client, decode_client, type_resize, type_ping,
  type_hello, type_detach, type_take_control,
}

-- 1 ≤ n ≤ 1000
abbrev pub IsCellCount : ℤ → Type 0
IsCellCount (pos n) = (1 ≤ n) × (n ≤ 1000)
IsCellCount (negsuc n) = ⊥

-- ValidateSize accepts exactly the sizes with both sides between 1 and 1000.
pub validate_size_iff :
    (cols rows : ℤ) → (validate_size cols rows ≡ ok tt) ↔ (IsCellCount cols × IsCellCount rows)
unfolding validate_size
validate_size_iff (pos c) (pos r) = (λ h. ground arith, λ h. ground arith)
validate_size_iff (pos c) (negsuc r) = (λ h. ground arith, λ h. absurd h.1)
validate_size_iff (negsuc c) (pos r) = (λ h. ground arith, λ h. absurd h.0)
validate_size_iff (negsuc c) (negsuc r) = (λ h. ground arith, λ h. absurd h.0)

-- What a client message that passes ValidateClient satisfies.
pub record IsClientMessage (m : ClientControlMessage) : Type 0 where
  pub known :
      (m.type ≡ type_hello)
      ⊎ (m.type ≡ type_detach)
      ⊎ (m.type ≡ type_take_control)
      ⊎ (m.type ≡ type_resize)
      ⊎ (m.type ≡ type_ping)
  pub resize_fits : m.type ≡ type_resize → IsCellCount m.cols × IsCellCount m.rows
  pub nonce_fits : m.type ≡ type_ping → len m.nonce ≤ 256

resize_size :
    (m : ClientControlMessage)
    → m.type ≡ type_resize
    → validate_client (some m) ≡ ok tt
    → validate_size m.cols m.rows ≡ ok tt
unfolding validate_client
resize_size m e h = rw e at h

ping_nonce :
    (m : ClientControlMessage)
    → m.type ≡ type_ping
    → validate_client (some m) ≡ ok tt
    → len m.nonce ≤ 256
unfolding validate_client
ping_nonce m e h = ground (arith, rw e at h)

validate_client_sound :
    (m : ClientControlMessage) → validate_client (some m) ≡ ok tt → IsClientMessage m
unfolding validate_client
validate_client_sound m h = record {
  known = ground (
    arith,
    eq_iff m.type type_hello,
    eq_iff m.type type_detach,
    eq_iff m.type type_take_control,
    eq_iff m.type type_resize,
    eq_iff m.type type_ping,
  );
  resize_fits = λ e. (validate_size_iff m.cols m.rows).0 (resize_size m e h);
  nonce_fits = λ e. ping_nonce m e h;
}

module _ (unmarshal : List ℕ → Option ClientControlMessage) where
  -- A control message that DecodeClient returns is the codec's reading of at most 16 KiB, is of a
  -- known type, and is within the limits on sizes (resize) and nonces (ping).
  pub decode_client_sound :
      (bytes : List ℕ) (m : ClientControlMessage)
      → decode_client unmarshal bytes ≡ ok m
      → (unmarshal bytes ≡ some m) × (length bytes ≤ 16384) × IsClientMessage m
  unfolding decode_client
  decode_client_sound bytes m h =
      (ground arith, ground arith, validate_client_sound m (ground arith))
