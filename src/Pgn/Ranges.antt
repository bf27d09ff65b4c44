-- ===== src/Pgn/Ranges.antt =====
-- The ranges of PGN numbers: which PGN falls where, and the addressed form of a PDU1.
use navigation_server.Base.{
  ℕ, ◌+◌, ◌*◌, ◌/◌, ◌%◌, ◌≤◌, ◌<◌, ◌≡◌, Bool, true, false, ◌⊎◌, arith, Result, ok, err,
  definition_error, ltb, if◌then◌else◌, leb,
}
use navigation_server.Base.Bits.{and_low_mask, and_high_mask}
use navigation_server.Pgn.{PgnRange, find_range, pgn_pdu1_adjust, fast_packet_check}

-- The range that a lookup gives ends at or after the PGN and starts at or before it, but for the
-- PGN from 0x1EE01 to 0x1EEFF, which get the range from 0x1EF00.
abbrev pub Covers : ℕ → Result PgnRange → Type 0
Covers pgn (ok r) =
    (pgn ≤ r.to) × ((r.start ≤ pgn) ⊎ ((0x1EE00 < pgn) × (pgn < 0x1EF00) × (r.start ≡ 0x1EF00)))
Covers pgn (err e) = ⊥

-- Every PGN up to 0x1FFFF has a range, which covers it.
pub find_range-Covers : (pgn : ℕ) → pgn ≤ 0x1FFFF → Covers pgn (find_range pgn)
unfolding find_range
find_range-Covers pgn le = ground arith

-- A larger PGN has none.
pub find_range_beyond : (pgn : ℕ) → 0x1FFFF < pgn → find_range pgn ≡ err definition_error
unfolding find_range
find_range_beyond pgn lt = ground arith

-- The PDU format byte decides.
pub pgn_pdu1_adjust-eq :
    (pgn : ℕ)
    → pgn_pdu1_adjust pgn
      ≡ (if ltb (pgn / 256 % 256) 240 then (pgn / 256 % 512 * 256, pgn % 256) else (pgn, 0xFF))
unfolding pgn_pdu1_adjust
pgn_pdu1_adjust-eq pgn =
    ground (arith, and_low_mask 8 (pgn / 256), and_low_mask 8 pgn, and_high_mask 8 9 pgn)

-- A PDU1 number of 17 bits with a destination in its low byte is taken apart, and that number
-- without the destination is left as it is, with the destination 0.
pub pgn_pdu1_adjust_pdu1 :
    (base da : ℕ)
    → base < 2 * 65536
    → base % 256 ≡ 0
    → base / 256 % 256 < 240
    → da < 256
    → pgn_pdu1_adjust (base + da) ≡ (base, da)
pgn_pdu1_adjust_pdu1 base da lb aligned pf ld = ground (arith, pgn_pdu1_adjust-eq (base + da))

-- Whether a PGN is sent in fast packets, by its number: never up to 0xFFFF, always from 0x10000 to
-- 0x1EFFF and from 0x1FF00 on, by its definition in between, and an error beyond 0x1FFFF.
pub fast_packet_check-eq :
    (defined : ℕ → Result Bool) (pgn : ℕ)
    → fast_packet_check defined pgn ≡ (
        if leb pgn 0xFFFF
        then ok false
        else if leb pgn 0x1EFFF
        then ok true
        else if leb pgn 0x1FEFF
        then defined pgn
        else if leb pgn 0x1FFFF
        then ok true
        else err definition_error)
unfolding fast_packet_check
fast_packet_check-eq defined pgn = ground arith
