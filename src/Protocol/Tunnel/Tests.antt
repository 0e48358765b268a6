-- ===== src/Protocol/Tunnel/Tests.antt =====
-- A codec that knows one kind of frame.
use term_bridge.Prelude.{
  true, ◌↔◌, ℕ, String, ◌&&◌, Option, none, some, List, [], ◌∷◌, ◌==◌, eq_iff, ◌≡◌, refl, arith,
  if◌then◌else◌, ok,
}
use term_bridge.Protocol.Tunnel.{
  Payload, other, TunnelFrame, ErrorResp, error_frame, marshal_frame, unmarshal_frame,
}
use term_bridge.Protocol.Tunnel.Frames.{has_no_nil, IsFrame, marshal_round_trip}

abbrev Frame : Type 0
Frame = TunnelFrame (Unit {0})

abbrev encode : String → String → Option (Payload (Unit {0})) → Option (List ℕ)
encode s r (some (other n)) = if s == "control" && r == "" then some (n ∷ []) else none
encode s r _ = none

abbrev control_frame : ℕ → Frame
control_frame n = record { stream_id = "control"; request_id = ""; payload = some (other n) }

abbrev marshal : Frame → Option (List ℕ)
marshal f = encode f.stream_id f.request_id f.payload

abbrev unmarshal : List ℕ → Option Frame
unmarshal (n ∷ []) = some (control_frame n)
unmarshal _ = none

decoded :
    (s r : String) (n : ℕ) (bytes : List ℕ)
    → encode s r (some (other n)) ≡ some bytes
    → (s ≡ "control") × (r ≡ "") × (bytes ≡ n ∷ [])
decoded s r n bytes h = ground (arith, h, eq_iff s "control", eq_iff r "")

round_parts :
    (s r : String) (p : Option (Payload (Unit {0}))) (bytes : List ℕ)
    → encode s r p ≡ some bytes
    → unmarshal bytes ≡ some (record { stream_id = s; request_id = r; payload = p })
round_parts s r (some (other n)) bytes h = let (a, b, c) = decoded s r n bytes h in rw (a, b, c)
round_parts s r _ bytes h = ground (arith, h)

round :
    (f : Frame) (bytes : List ℕ)
    → has_no_nil f ≡ true
    → marshal f ≡ some bytes
    → unmarshal bytes ≡ some f
round f bytes n h = round_parts f.stream_id f.request_id f.payload bytes h

marshal_round_trip_example :
    ((marshal_frame marshal (some (control_frame 100)) ≡ ok (100 ∷ []))
      ↔ ((marshal (control_frame 100) ≡ some (100 ∷ [])) × IsFrame (control_frame 100)))
    × (marshal (control_frame 100) ≡ some (100 ∷ [])
        → (unmarshal_frame unmarshal (100 ∷ []) ≡ ok (control_frame 100))
          ↔ IsFrame (control_frame 100))
marshal_round_trip_example =
    marshal_round_trip marshal unmarshal round (control_frame 100) (100 ∷ []) refl

abbrev refused : ErrorResp
refused = record { code = "not_found"; error = "Session was not found."; request_id = "7" }

abbrev refusal : Frame
refusal = error_frame "s1" "7" "not_found" "Session was not found."
