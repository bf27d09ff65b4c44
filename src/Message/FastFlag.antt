-- ===== src/Message/FastFlag.antt =====
-- When a message is marked for fast packet transport, and how a message survives its protobuf form.
use navigation_server.Base.{
  ℕ, ◌≤◌, ◌<◌, ◌≡◌, ◌⊎◌, Bool, true, false, Option, none, some, List, arith, Result, ok, length,
}
use navigation_server.Pgn.{fast_packet_check}
use navigation_server.Pgn.Ranges.{fast_packet_check-eq}
use navigation_server.Message.{N2kMsg, check_fast_packet, new_msg, as_protobuf, new_msg_protobuf}

-- Between 0x10001 and 0x1EFFF, where the PGN definitions say fast packet whatever the length, a
-- message with a payload of at most 8 bytes is not marked as one.
pub check_fast_packet_differs :
    (defined : ℕ → Result Bool) (pgn : ℕ) (payload : List ℕ)
    → 0x10000 < pgn
    → pgn ≤ 0x1EFFF
    → length payload ≤ 8
    → (check_fast_packet pgn payload ≡ false) × (fast_packet_check defined pgn ≡ ok true)
unfolding check_fast_packet
check_fast_packet_differs defined pgn payload lo hi short =
    (ground arith, ground (arith, fast_packet_check-eq defined pgn))

-- Outside that window the mark agrees with the PGN definitions, whenever these decide by the number
-- alone.
pub check_fast_packet_agrees :
    (defined : ℕ → Result Bool) (pgn : ℕ) (payload : List ℕ) (fast : Bool)
    → (pgn ≤ 0x10000) ⊎ (0x1FF00 ≤ pgn) ⊎ (8 < length payload)
    → (pgn ≤ 0x1EFFF) ⊎ (0x1FF00 ≤ pgn)
    → fast_packet_check defined pgn ≡ ok fast
    → check_fast_packet pgn payload ≡ fast
unfolding check_fast_packet
check_fast_packet_agrees defined pgn payload fast window by_number e =
    ground (arith, fast_packet_check-eq defined pgn)

-- A message that the constructor builds comes back from its protobuf form.
pub new_msg_protobuf-as_protobuf :
    (now pgn prio sa da timestamp : ℕ) (payload : Option (List ℕ)) (m : N2kMsg)
    → new_msg now pgn prio sa da payload timestamp ≡ ok m
    → new_msg_protobuf m.pgn (as_protobuf m) ≡ m
unfolding new_msg new_msg_protobuf as_protobuf
new_msg_protobuf-as_protobuf now pgn prio sa da timestamp none m e = cc
new_msg_protobuf-as_protobuf now pgn prio sa da timestamp (some payload) m e = ground arith
