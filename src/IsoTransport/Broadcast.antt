-- ===== src/IsoTransport/Broadcast.antt =====
-- A broadcast from end to end: the announcement and the packets of one side, received by the other.
use navigation_server.Base.{
  ℕ, suc, ◌+◌, ◌-◌, ◌*◌, ◌/◌, ◌%◌, ◌≤◌, ◌<◌, ◌≡◌, refl, sym, subst, ◌∙◌, false, none, some, List,
  [], ◌∷◌, ◌++◌, arith, length, replicate, ltb, ltb-false, get, put, ok, ◌>>=◌, bit_or, ◌^◌,
}
use navigation_server.Base.Bits.{and_low_mask, or_fields_low}
use navigation_server.Pgn.{pgn_pdu1_adjust}
use navigation_server.Message.{N2kMsg, new_msg}
use navigation_server.IsoTransport.Transfer.{Transaction, new_transaction_object, split_message}
use navigation_server.IsoTransport.Handler.{
  IsoTransportHandler, new_transaction, new_output_transaction,
}
use navigation_server.IsoTransport.Packets.{packets, Carries, split_message-Carries}
use navigation_server.IsoTransport.Feeding.{feed, received, in_progress, feed-Carries}

-- The eight bytes of the announcement of `n` bytes of a PGN.
abbrev pub announcement : ℕ → ℕ → List ℕ
announcement n pgn =
    32
    ∷ (n % 256)
    ∷ (n / 256)
    ∷ packets n
    ∷ 0xFF
    ∷ (pgn % 256)
    ∷ (pgn / 256 % 256)
    ∷ (pgn / 65536 % 256)
    ∷ []

module _ (msg : N2kMsg) (some_byte : 1 ≤ length msg.payload)
    (fits : length msg.payload ≤ 1785) where
  -- What the sender keeps for the packets.
  abbrev outgoing : Transaction
  outgoing = record new_transaction_object {
    total_size = length msg.payload;
    buffer = msg.payload;
    nb_packets = packets (length msg.payload);
  }

  announced :
      (now : ℕ)
      → new_output_transaction now msg ≡ (do
        bam ← new_msg now 60416 7 msg.sa 255 (some (announcement (length msg.payload) msg.pgn)) 0
        ok (bam, outgoing))
  unfolding new_output_transaction
  announced now =
      let low : ltb 255 (packets (length msg.payload)) ≡ false = ground arith in
      let first_byte : msg.pgn % 65536 % 256 ≡ msg.pgn % 256 = omega arith in
      let second_byte : msg.pgn % 65536 / 256 ≡ msg.pgn / 256 % 256 = omega arith in
      rw (
        ltb-false 65535 (length msg.payload) (omega arith),
        low,
        and_low_mask 16 msg.pgn,
        and_low_mask 8 (msg.pgn / 65536),
        first_byte,
        second_byte,
      )

  -- The receiver's transaction after the announcement.
  accepted :
      (h : IsoTransportHandler) (start prio : ℕ)
      → msg.pgn < 2 ^ 24
      → (pgn_pdu1_adjust msg.pgn).0 ≡ msg.pgn
      → new_transaction h start msg.sa prio (announcement (length msg.payload) msg.pgn) ≡ (
        ok tt,
        record {
          transactions =
              put h.transactions msg.sa (in_progress start start msg.sa prio msg.pgn msg.payload 0);
        },
      )
  unfolding new_transaction
  accepted h start prio small plain =
      let n = length msg.payload in
      let size : n % 256 + 256 * (n / 256) ≡ n = omega arith in
      let number : bit_or (msg.pgn % 256 + 256 * (msg.pgn / 256 % 256))
            (msg.pgn / 65536 % 256 * 65536)
          ≡ msg.pgn =
        or_fields_low 16 (msg.pgn / 65536 % 256) (msg.pgn % 256 + 256 * (msg.pgn / 256 % 256))
          (omega arith)
        ∙ omega arith in
      let gap : n - 0 ≡ n = omega arith in rw (size, number, plain, gap)

pub broadcast :
    (msg : N2kMsg) (h : IsoTransportHandler) (now start later prio : ℕ)
    → 1 ≤ length msg.payload
    → length msg.payload ≤ 1785
    → msg.pgn < 2 ^ 24
    → (pgn_pdu1_adjust msg.pgn).0 ≡ msg.pgn
    → get h.transactions msg.sa ≡ none
    → (bam : N2kMsg) × (t : Transaction) × (new_output_transaction now msg ≡ ok (bam, t))
      × ((new_transaction h start msg.sa prio bam.payload).0 ≡ ok tt)
      × (feed (new_transaction h start msg.sa prio bam.payload).1 later msg.sa (split_message t) ≡ (
        replicate (packets (length msg.payload) - 1) (ok none)
            ++ received later start msg.sa prio msg.pgn msg.payload ∷ [],
        h,
      ))
unfolding new_msg
broadcast msg h now start later prio some_byte fits small plain idle =
    let n = length msg.payload in
    let accept = accepted msg some_byte fits h start prio small plain in
    let t = outgoing msg some_byte fits in
    let count : suc (packets n - 1) ≡ packets n = ground arith in
    let frames : Carries msg.payload (suc (packets n - 1)) 0 (split_message t) =
      subst (λ (j : ℕ). Carries msg.payload j 0 (split_message t)) (sym count)
        (split_message-Carries msg.payload t refl refl refl) in
    (
      _,
      t,
      announced msg some_byte fits now,
      rw accept,
      rw (
        accept,
        feed-Carries later start msg.sa prio msg.pgn msg.payload some_byte h.transactions idle
            (packets n - 1) 0 (split_message t) (omega (arith, count)) frames,
      ),
    )
