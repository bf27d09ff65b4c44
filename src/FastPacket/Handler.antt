-- ===== src/FastPacket/Handler.antt =====
-- The class `FastPacketHandler`, its receiving side. `write_sequences` holds the sequence in use
-- for each PGN that is being sent.
use navigation_server.Base.{
  ℕ, bit_and, Bool, true, false, not, Option, none, some, List, [], ◌∷◌, if◌then◌else◌, ◌==◌,
  get_elem?, Dict, get, put, remove, Result, ok, err, ◌>>=◌, index_error, fast_packet_first,
}
use navigation_server.Base.Bits.{◌>>◌}
use navigation_server.FastPacket.Packet.{
  FastPacket, compute_key, new_packet, first_packet, add_packet, check_complete, total_frame,
  check_validity,
}

pub record FastPacketHandler : Type 0 where
  pub sequences : Dict FastPacket
  pub write_sequences : Dict ℕ

abbrev pub new_handler : FastPacketHandler
new_handler = record { sequences = []; write_sequences = [] }

-- The two parts of a frame's first byte.
unfoldable pub seq_of : ℕ → ℕ
seq_of b = bit_and (b >> 5) 7

unfoldable pub counter_of : ℕ → ℕ
counter_of b = bit_and b 0x1f

-- What follows the reception by the handle: the handle is the object in the table, so what it
-- wrote is seen there.
unfoldable pub settle :
    FastPacketHandler → ℕ → FastPacket → Result (Option (List ℕ)) × FastPacketHandler
settle h key handle =
    if check_complete handle
    then (
      (total_frame handle >>= λ result. ok (some result)),
      record h { sequences = remove (put h.sequences key handle) key },
    )
    else (ok none, record h { sequences = put h.sequences key handle })

-- A frame for a handle that is in the table: `first_packet` or `add_packet`, which drops the
-- sequence when it raises.
unfoldable pub receive :
    FastPacketHandler → ℕ → FastPacket → ℕ → List ℕ → Result (Option (List ℕ)) × FastPacketHandler
unfolding settle
receive h key handle counter frame =
    if counter == 0
    then elim (first_packet handle frame) [ ok handle' ↦ settle h key handle' | err e ↦ (err e, h) ]
    else elim (add_packet handle frame) [
      | ok handle' ↦ settle h key handle'
      | err e ↦ (err e, record h { sequences = remove h.sequences key })
    ]

unfoldable pub dispatch :
    FastPacketHandler → ℕ → ℕ → ℕ → ℕ → ℕ → List ℕ → Result (Option (List ℕ)) × FastPacketHandler
unfolding receive
dispatch h now pgn addr seq counter frame =
    let key = compute_key pgn addr seq in
    elim (get h.sequences key) [
      | some handle ↦ receive h key handle counter frame
      | none ↦
          if counter == 0
          then receive (record h { sequences = put h.sequences key (new_packet now pgn addr seq) })
              key (new_packet now pgn addr seq) counter frame
          else (err (fast_packet_first counter), h)
    ]

unfoldable pub process_frame :
    FastPacketHandler → ℕ → ℕ → ℕ → List ℕ → Result (Option (List ℕ)) × FastPacketHandler
unfolding dispatch
process_frame h now pgn addr frame = elim (get_elem? frame 0) [
  | none ↦ (err index_error, h)
  | some b ↦ dispatch h now pgn addr (seq_of b) (counter_of b) frame
]

unfoldable pub is_pgn_active : FastPacketHandler → ℕ → ℕ → List ℕ → Result Bool
is_pgn_active h pgn addr frame = elim (get_elem? frame 0) [
  | none ↦ err index_error
  | some b ↦
      ok (elim (get h.sequences (compute_key pgn addr (seq_of b))) [ none ↦ false | some _ ↦ true ])
]

-- The keys of the sequences that are not valid any more, and their removal.
unfoldable pub to_be_removed : Dict FastPacket → ℕ → List ℕ
to_be_removed [] now = []
to_be_removed ((k, s) ∷ rest) now =
    let others = to_be_removed rest now in
    if not (check_validity s now) then s.key ∷ others else others

unfoldable pub remove_all : Dict FastPacket → List ℕ → Dict FastPacket
remove_all d [] = d
remove_all d (key ∷ keys) = remove_all (remove d key) keys

unfoldable pub collect_garbage : FastPacketHandler → ℕ → FastPacketHandler
unfolding to_be_removed remove_all
collect_garbage h now = record h {
  sequences = remove_all h.sequences (to_be_removed h.sequences now);
}
