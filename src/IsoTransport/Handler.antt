-- ===== src/IsoTransport/Handler.antt =====
-- The class `IsoTransportHandler`: the transactions by source address.
use navigation_server.Base.{
  ℕ, Option, none, some, List, Dict, get, put, remove, Result, ok, err, iso_transport,
}
use navigation_server.Message.{N2kMsg}
use navigation_server.IsoTransport.Transfer.{
  Transaction, new_transaction_object, incoming_bam_transaction, incoming_packet,
  outgoing_bam_transaction,
}

pub record IsoTransportHandler : Type 0 where
  pub transactions : Dict Transaction

-- `except IsoTransportException`: logged, and nothing is stored. Any other exception goes on.
abbrev pub accept :
    IsoTransportHandler → ℕ → Result Transaction → Result (Unit {0}) × IsoTransportHandler
accept h sa (ok t) = (ok tt, record { transactions = put h.transactions sa t })
accept h sa (err iso_transport) = (ok tt, h)
accept h sa (err e) = (err e, h)

unfoldable pub new_transaction :
    IsoTransportHandler → ℕ → ℕ → ℕ → List ℕ → Result (Unit {0}) × IsoTransportHandler
unfolding incoming_bam_transaction
new_transaction h now sa prio frame =
    accept h sa (incoming_bam_transaction now sa prio frame new_transaction_object)

-- What follows the packet: the transaction is dropped on its exception and when it is over.
abbrev pub settle_packet :
    IsoTransportHandler
    → ℕ
    → Result (Option N2kMsg × Transaction)
    → Result (Option N2kMsg) × IsoTransportHandler
settle_packet h sa (ok (none, t)) = (ok none, record { transactions = put h.transactions sa t })
settle_packet h sa (ok (some m, t)) =
    (ok (some m), record { transactions = remove (put h.transactions sa t) sa })
settle_packet h sa (err iso_transport) =
    (err iso_transport, record { transactions = remove h.transactions sa })
settle_packet h sa (err e) = (err e, h)

unfoldable pub handler_incoming_packet :
    IsoTransportHandler → ℕ → ℕ → List ℕ → Result (Option N2kMsg) × IsoTransportHandler
unfolding incoming_packet
handler_incoming_packet h now sa frame = elim (get h.transactions sa) [
  | none ↦ (err iso_transport, h)
  | some t ↦ settle_packet h sa (incoming_packet now frame t)
]

unfoldable pub new_output_transaction : ℕ → N2kMsg → Result (N2kMsg × Transaction)
unfolding outgoing_bam_transaction
new_output_transaction now msg = outgoing_bam_transaction now msg new_transaction_object
