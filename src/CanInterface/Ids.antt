-- ===== src/CanInterface/Ids.antt =====
-- The 29-bit identifier of a frame: priority, PGN with destination, source.
use navigation_server.Base.{
  ℕ, ◌+◌, ◌*◌, ◌/◌, ◌%◌, ◌<◌, ◌≡◌, ap, ◌∙◌, bit_and, bit_or, arith, ltb, ltb→lt, if◌then◌else◌, inl,
  inr, Bool-cases,
}
use navigation_server.Base.Bits.{◌<<◌, and_low_mask, or_fields_low}
use navigation_server.Pgn.{pgn_pdu1_adjust}
use navigation_server.Pgn.Ranges.{pgn_pdu1_adjust-eq, pgn_pdu1_adjust_pdu1}
use navigation_server.Message.{N2kMsg}
use navigation_server.CanInterface.Receive.{id_pgn, id_sa, id_prio}
use navigation_server.CanInterface.Send.{build_arbitration_id}

-- A message whose identifier can be built and read: its parts fit their fields, and the low byte of
-- an addressed PGN is free for the destination.
pub record Fits (m : N2kMsg) : Type 0 where
  pub sa_fits : m.sa < 256
  pub prio_fits : m.prio < 8
  pub da_fits : m.da < 256
  pub pgn_fits : m.pgn < 2 * 65536
  pub pgn_plain : m.pgn / 256 % 256 < 240 → m.pgn % 256 ≡ 0

-- The destination that a receiver sees.
abbrev pub seen_da : N2kMsg → ℕ
seen_da m = if ltb (m.pgn / 256 % 256) 240 then m.da else 255

-- The PGN with the destination.
abbrev pgn_field : N2kMsg → ℕ
pgn_field m = if ltb (m.pgn / 256 % 256) 240 then m.pgn + m.da else m.pgn

pgn_field_bound : (m : N2kMsg) → Fits m → pgn_field m < 2 * 65536
pgn_field_bound m fits =
    let da : m.da < 256 = fits.da_fits in
    let pgn : m.pgn < 2 * 65536 = fits.pgn_fits in
    let plain : m.pgn / 256 % 256 < 240 → m.pgn % 256 ≡ 0 = fits.pgn_plain in ground arith

join_fields :
    (sa x prio : ℕ)
    → sa < 256
    → x < 2 * 65536
    → bit_or (bit_or sa (x << 8)) (bit_and prio 7 << 26) ≡ prio % 8 * 67108864 + (x * 256 + sa)
join_fields sa x prio sa_fits x_fits =
    rw (or_fields_low 8 x sa sa_fits, and_low_mask 3 prio)
      (or_fields_low 26 (prio % 8) (x * 256 + sa) (omega arith))

-- The fields of the identifier do not overlap.
pub build_arbitration_id-eq :
    (m : N2kMsg) → Fits m → build_arbitration_id m ≡ m.prio * 67108864 + (pgn_field m * 256 + m.sa)
unfolding build_arbitration_id
build_arbitration_id-eq m fits =
    let small : m.prio % 8 ≡ m.prio = omega (arith, fits.prio_fits) in
    elim (Bool-cases (ltb (m.pgn / 256 % 256) 240)) [
      | inl pdu1 ↦
          rw (and_low_mask 8 (m.pgn / 256), pdu1)
            (join_fields m.sa (m.pgn + m.da) m.prio fits.sa_fits
                (rw pdu1 at (pgn_field_bound m fits))
              ∙ ap (λ (p : ℕ). p * 67108864 + ((m.pgn + m.da) * 256 + m.sa)) small)
      | inr pdu2 ↦
          rw (and_low_mask 8 (m.pgn / 256), pdu2)
            (join_fields m.sa m.pgn m.prio fits.sa_fits fits.pgn_fits
              ∙ ap (λ (p : ℕ). p * 67108864 + (m.pgn * 256 + m.sa)) small)
    ]

adjust_field : (m : N2kMsg) → Fits m → pgn_pdu1_adjust (pgn_field m) ≡ (m.pgn, seen_da m)
adjust_field m fits = elim (Bool-cases (ltb (m.pgn / 256 % 256) 240)) [
  | inl pdu1 ↦
      let pf : m.pgn / 256 % 256 < 240 = ltb→lt (m.pgn / 256 % 256) 240 pdu1 in
      rw pdu1 (pgn_pdu1_adjust_pdu1 m.pgn m.da fits.pgn_fits (fits.pgn_plain pf) pf fits.da_fits)
  | inr pdu2 ↦ rw (pdu2, pgn_pdu1_adjust-eq m.pgn, pdu2)
]

-- What a receiver reads from the identifier that a sender builds: the PGN, the source and the
-- priority of the message, and its destination, 255 for a PDU2.
pub build_arbitration_id_read :
    (m : N2kMsg)
    → Fits m
    → (id_pgn (build_arbitration_id m) ≡ (m.pgn, seen_da m))
      × (id_sa (build_arbitration_id m) ≡ m.sa)
      × (id_prio (build_arbitration_id m) ≡ m.prio)
build_arbitration_id_read m fits =
    let id = build_arbitration_id m in
    let eq = build_arbitration_id-eq m fits in
    let low = pgn_field_bound m fits in
    let middle : id / 256 % 131072 ≡ pgn_field m = omega (arith, eq, low, fits.sa_fits) in
    (
      rw (and_low_mask 17 (id / 256), middle) (adjust_field m fits),
      and_low_mask 8 id ∙ omega (arith, eq, fits.sa_fits),
      and_low_mask 3 (id / 67108864) ∙ omega (arith, eq, low, fits.sa_fits, fits.prio_fits),
    )
