-- ===== src/Couplers/YdReply.antt =====
-- A message of one frame, from the encoder of the coupler to its decoder.
use navigation_server.Base.{
  ℕ, ◌+◌, ◌^◌, ◌<◌, ◌≡◌, ◌≢◌, refl, ◌∙◌, Bool, false, Option, none, some, List, [], ◌∷◌, ok, Result,
  ==_ne,
}
use navigation_server.Message.{N2kMsg, new_msg}
use navigation_server.FastPacket.{FastPacketHandler, is_pgn_active}
use navigation_server.Nmea0183.{n2k_msg}
use navigation_server.Nmea0183.Checksum.{AllBytes}
use navigation_server.Couplers.{assemble, complete}
use navigation_server.Couplers.Yd.{
  YdCoupler, MsgId, decode_msgid, data_bytes, direction, decode_data, decode_fields, decode_frame,
  canid, yd_line, yd_message, encode_nmea2000,
}
use navigation_server.Couplers.YdRoundTrip.{decode_msgid-canid}
use navigation_server.Couplers.YdFrames.{
  AllPlain, received, received-fields, pieces, data_bytes-pieces,
}

assemble-single :
    (first : Result (Option (List ℕ)) → Result (List ℕ)) (h : FastPacketHandler) (now pgn sa : ℕ)
    (bytes : List ℕ) (fast : Result Bool)
    → is_pgn_active h pgn sa bytes ≡ ok false
    → fast ≡ ok false
    → assemble first fast h now pgn sa bytes ≡ (ok bytes, h)
unfolding assemble
assemble-single first h now pgn sa bytes fast fresh single =
    rw (fresh, assemble) (rw (single, assemble) refl)

decode_fields-read :
    (is_fast : ℕ → Result Bool) (now : ℕ) (c : YdCoupler) (frame time msgid db : List ℕ)
    (dbs : List (List ℕ)) (id : MsgId) (bytes : List ℕ)
    → decode_msgid msgid ≡ ok id
    → data_bytes (db ∷ dbs) ≡ ok bytes
    → is_pgn_active c.fast_packet_handler id.pgn id.sa bytes ≡ ok false
    → is_fast id.pgn ≡ ok false
    → decode_fields is_fast none now c frame (time ∷ (82 ∷ []) ∷ msgid ∷ db ∷ dbs)
      ≡ (yd_message now frame id (ok bytes), c)
unfolding decode_fields direction decode_data
decode_fields-read is_fast now c frame time msgid db dbs id bytes read content fresh single =
    rw (read, decode_fields)
      (rw (content, decode_data)
        (rw
          (assemble-single complete c.fast_packet_handler now id.pgn id.sa bytes (is_fast id.pgn)
            fresh single)
          refl))

decode_fields-pieces :
    (is_fast : ℕ → Result Bool) (now : ℕ) (c : YdCoupler) (frame time msgid : List ℕ) (b : ℕ)
    (bs : List ℕ) (id : MsgId)
    → decode_msgid msgid ≡ ok id
    → AllBytes (b ∷ bs)
    → is_pgn_active c.fast_packet_handler id.pgn id.sa (b ∷ bs) ≡ ok false
    → is_fast id.pgn ≡ ok false
    → decode_fields is_fast none now c frame (time ∷ (82 ∷ []) ∷ msgid ∷ pieces b bs)
      ≡ (yd_message now frame id (ok (b ∷ bs)), c)
decode_fields-pieces is_fast now c frame time msgid b [] id read small fresh single =
    decode_fields-read is_fast now c frame time msgid _ _ id (b ∷ []) read
      (data_bytes-pieces b [] small) fresh single
decode_fields-pieces is_fast now c frame time msgid b (d ∷ bs) id read small fresh single =
    decode_fields-read is_fast now c frame time msgid _ _ id (b ∷ d ∷ bs) read
      (data_bytes-pieces b (d ∷ bs) small) fresh single

-- A message that is not marked for fast packets is sent as one line. When a gateway gives this line
-- back as received, behind a time without a space, the coupler reads the PGN, the priority and the
-- payload as they were, but the destination as the source, and destination 0. For that the parts fit
-- their fields, the payload is bytes and not empty, the coupler takes every PGN, the definition of
-- this one says single frames, and no fast packet of it is open from this source.
pub decode_frame-encode :
    (is_fast : ℕ → Result Bool) (now : ℕ) (c sender : YdCoupler) (m out : N2kMsg) (t : ℕ)
    (time : List ℕ) (b : ℕ) (bs : List ℕ)
    → m.fast_packet ≡ false
    → m.payload ≡ b ∷ bs
    → m.pgn < 2 ^ 18
    → m.prio < 8
    → m.da < 256
    → AllBytes (b ∷ bs)
    → t ≢ 4
    → AllPlain (t ∷ time)
    → is_pgn_active c.fast_packet_handler m.pgn m.da (b ∷ bs) ≡ ok false
    → is_fast m.pgn ≡ ok false
    → new_msg now m.pgn m.prio m.da 0 (some (b ∷ bs)) 0 ≡ ok out
    → (text : List ℕ) × ((encode_nmea2000 sender m).0 ≡ (text ∷ [], ok tt))
      × (decode_frame is_fast none now c (received (t ∷ time) text) ≡ (
        ok (n2k_msg (some (received (t ∷ time) text)) out),
        record c { msg_raw = c.msg_raw + 1 },
      ))
unfolding encode_nmea2000 decode_frame
decode_frame-encode is_fast now c sender m out t time b bs single payload hp hq hd small eot plain
      fresh slow built =
    let frame = received (t ∷ time) (yd_line (canid m) (b ∷ bs)) in
    let counted = record c { msg_raw = c.msg_raw + 1 } in
    (
      yd_line (canid m) (b ∷ bs),
      rw (single, payload) refl,
      rw (==_ne t 4 eot, received-fields (t ∷ time) m b bs plain hp hq hd small)
          (decode_fields-pieces is_fast now counted frame (t ∷ time) (canid m) b bs
              (record { pgn = m.pgn; prio = m.prio; sa = m.da }) (decode_msgid-canid m hp hq hd)
              small fresh slow
            ∙ rw built refl),
    )
