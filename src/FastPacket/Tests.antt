-- ===== src/FastPacket/Tests.antt =====
-- Runs of the fast packet transport, and its theorems at concrete inputs.
use navigation_server.Base.{
  some, ℕ, ◌≡◌, refl, none, some, List, [], ◌∷◌, arith, get, put, remove, ok, inl,
}
use navigation_server.FastPacket.Packet.{FastPacket, compute_key, new_packet}
use navigation_server.FastPacket.Handler.{new_handler, process_frame, seq_of, counter_of}
use navigation_server.FastPacket.Split.{split_frames, split_message}
use navigation_server.FastPacket.Sending.{feed, outcomes, feed-split_message}

abbrev nine : List ℕ
nine = 1 ∷ 2 ∷ 3 ∷ 4 ∷ 5 ∷ 6 ∷ 7 ∷ 8 ∷ 9 ∷ []

nine_frames : split_frames 1 nine ≡ (
  (32 ∷ 9 ∷ 1 ∷ 2 ∷ 3 ∷ 4 ∷ 5 ∷ 6 ∷ []) ∷ (33 ∷ 7 ∷ 8 ∷ 9 ∷ 255 ∷ 255 ∷ 255 ∷ 255 ∷ []) ∷ [],
  ok tt,
)
unfolding split_frames
nine_frames = refl

-- The reassembled payload has one byte too many.
nine_received :
    (feed new_handler 0 129029 7 (split_frames 1 nine).0).0
    ≡ ok none ∷ ok (some (1 ∷ 2 ∷ 3 ∷ 4 ∷ 5 ∷ 6 ∷ 7 ∷ 8 ∷ 9 ∷ 255 ∷ [])) ∷ []
unfolding split_frames feed process_frame seq_of counter_of new_packet get put remove
    navigation_server.FastPacket.Packet.compute_key navigation_server.FastPacket.Packet.first_packet
    navigation_server.FastPacket.Packet.add_packet
    navigation_server.FastPacket.Packet.check_complete
    navigation_server.FastPacket.Packet.total_frame
nine_received = refl

feed-split_message_example :
    (feed new_handler 0 129029 7 (split_message new_handler 129029 nine).0.0
      ≡ (outcomes 1 nine, new_handler))
    × ((split_message new_handler 129029 nine).0.1 ≡ ok tt)
    × (get (split_message new_handler 129029 nine).1.write_sequences 129029 ≡ some 0)
    × ((split_message new_handler 129029 nine).1.sequences ≡ [])
unfolding get
feed-split_message_example =
    feed-split_message new_handler new_handler 0 129029 7 129029 nine (inl refl) refl (omega arith)
      (omega arith)
