-- ===== src/FastPacket/Garbage.antt =====
-- Each sequence stands under its own key, once, and garbage collection removes the outdated ones.
use navigation_server.Base.{
  ℕ, ◌≡◌, refl, ◌∙◌, false, Option, none, some, List, [], ◌∷◌, arith, Dict, get, put, remove,
  get-put, get-remove, contains, ok, Result-cases, if◌then◌else◌, ◌==◌, inl, inr, Bool-cases,
  Option-cases, ==_iff,
}
use navigation_server.FastPacket.Packet.{
  FastPacket, compute_key, new_packet, first_packet, add_packet, check_complete, check_validity,
}
use navigation_server.FastPacket.Handler.{
  FastPacketHandler, process_frame, receive, settle, seq_of, counter_of, collect_garbage,
  to_be_removed, remove_all,
}
use navigation_server.FastPacket.Sequences.{
  dispatch_known, dispatch_first, dispatch_wrong_first, allocated,
}

-- The table of a handler: no key twice, and each sequence under its own key.
abbrev pub IsTable : Dict FastPacket → Type 0
IsTable [] = Unit
IsTable ((k, s) ∷ d) = (s.key ≡ k) × (get d k ≡ none) × IsTable d

IsTable-put :
    (d : Dict FastPacket) (k : ℕ) (s : FastPacket) → s.key ≡ k → IsTable d → IsTable (put d k s)
unfolding put get
IsTable-put [] k s e t = (e, refl, tt)
IsTable-put ((j, r) ∷ d) k s e t = elim (Bool-cases (j == k)) [
  | inl same ↦ rw same (ground arith, t.1, t.2)
  | inr other ↦ rw other (t.0, ground (arith, get-put d k j s, t.1), IsTable-put d k s e t.2)
]

IsTable-remove : (d : Dict FastPacket) (k : ℕ) → IsTable d → IsTable (remove d k)
unfolding remove
IsTable-remove [] k t = tt
IsTable-remove ((j, r) ∷ d) k t = elim (Bool-cases (j == k)) [
  | inl same ↦ rw same (IsTable-remove d k t.2)
  | inr other ↦ rw other (t.0, ground (arith, get-remove d k j, t.1), IsTable-remove d k t.2)
]

IsTable-get :
    (d : Dict FastPacket) (k : ℕ) (s : FastPacket) → IsTable d → get d k ≡ some s → s.key ≡ k
unfolding get
IsTable-get [] k s t found = cc
IsTable-get ((j, r) ∷ d) k s t found = elim (Bool-cases (j == k)) [
  | inl same ↦ ground arith
  | inr other ↦ IsTable-get d k s t.2 (ground arith)
]

key-first_packet : (p q : FastPacket) (frame : List ℕ) → first_packet p frame ≡ ok q → q.key ≡ p.key
unfolding first_packet
key-first_packet p q frame e = ground arith

key-add_packet : (p q : FastPacket) (frame : List ℕ) → add_packet p frame ≡ ok q → q.key ≡ p.key
unfolding add_packet
key-add_packet p q frame e = ground arith

settle-IsTable :
    (h : FastPacketHandler) (k : ℕ) (p : FastPacket)
    → p.key ≡ k
    → IsTable h.sequences
    → IsTable (settle h k p).1.sequences
unfolding settle
settle-IsTable h k p e t = elim (Bool-cases (check_complete p)) [
  | inl done ↦ rw done (IsTable-remove (put h.sequences k p) k (IsTable-put h.sequences k p e t))
  | inr more ↦ rw more (IsTable-put h.sequences k p e t)
]

receive-IsTable :
    (h : FastPacketHandler) (k : ℕ) (p : FastPacket) (counter : ℕ) (frame : List ℕ)
    → p.key ≡ k
    → IsTable h.sequences
    → IsTable (receive h k p counter frame).1.sequences
unfolding receive
receive-IsTable h k p counter frame e t = elim (Bool-cases (counter == 0)) [
  | inl first ↦ elim (Result-cases (first_packet p frame)) [
    | inl (q, begun) ↦
        rw (first, begun) (settle-IsTable h k q (key-first_packet p q frame begun ∙ e) t)
    | inr (x, failed) ↦ rw (first, failed) t
  ]
  | inr later ↦ elim (Result-cases (add_packet p frame)) [
    | inl (q, added) ↦
        rw (later, added) (settle-IsTable h k q (key-add_packet p q frame added ∙ e) t)
    | inr (x, failed) ↦ rw (later, failed) (IsTable-remove h.sequences k t)
  ]
]

key-new_packet :
    (now pgn addr seq : ℕ) → (new_packet now pgn addr seq).key ≡ compute_key pgn addr seq
unfolding new_packet
key-new_packet now pgn addr seq = refl

-- A frame, whatever it holds and however it ends, keeps the table in order.
pub process_frame-IsTable :
    (h : FastPacketHandler) (now pgn addr : ℕ) (frame : List ℕ)
    → IsTable h.sequences
    → IsTable (process_frame h now pgn addr frame).1.sequences
unfolding process_frame
process_frame-IsTable h now pgn addr [] t = t
process_frame-IsTable h now pgn addr (b ∷ rest) t =
    let seq = seq_of b in
    let counter = counter_of b in
    let key = compute_key pgn addr seq in
    let fresh = new_packet now pgn addr seq in
    elim (Option-cases (get h.sequences key)) [
      | inr (p, found) ↦
          rw (dispatch_known h now pgn addr seq counter (b ∷ rest) p found)
            (receive-IsTable h key p counter (b ∷ rest) (IsTable-get h.sequences key p t found) t)
      | inl absent ↦ elim (Bool-cases (counter == 0)) [
        | inl first ↦
            rw
              (dispatch_first h now pgn addr seq counter (b ∷ rest) absent
                ((==_iff counter 0).0 first))
              (receive-IsTable (allocated h now pgn addr seq counter (b ∷ rest)) key fresh counter
                (b ∷ rest) (key-new_packet now pgn addr seq)
                (IsTable-put h.sequences key fresh (key-new_packet now pgn addr seq) t))
        | inr late ↦
            rw (dispatch_wrong_first h now pgn addr seq counter (b ∷ rest) absent (ground arith)) t
      ]
    ]

-- What garbage collection leaves of an entry.
abbrev pub kept : ℕ → Option FastPacket → Option FastPacket
kept now none = none
kept now (some s) = if check_validity s now then some s else none

get-remove_all :
    (d : Dict FastPacket) (keys : List ℕ) (k : ℕ)
    → get (remove_all d keys) k ≡ (if contains keys k then none else get d k)
unfolding remove_all
get-remove_all d [] k = refl
get-remove_all d (j ∷ keys) k = ground (arith, get-remove_all (remove d j) keys k, get-remove d j k)

absent-to_be_removed :
    (d : Dict FastPacket) (now k : ℕ)
    → IsTable d
    → get d k ≡ none
    → contains (to_be_removed d now) k ≡ false
unfolding to_be_removed get
absent-to_be_removed [] now k t absent = refl
absent-to_be_removed ((j, s) ∷ d) now k t absent =
    let other : (j == k) ≡ false = ground arith in
    let rest = absent-to_be_removed d now k t.2 (ground arith) in
    elim (Bool-cases (check_validity s now)) [
      | inl valid ↦ rw valid rest
      | inr old ↦ rw (old, t.0) (ground (arith, rest))
    ]

contains-to_be_removed :
    (d : Dict FastPacket) (now k : ℕ)
    → IsTable d
    → (if contains (to_be_removed d now) k then none else get d k) ≡ kept now (get d k)
unfolding to_be_removed get
contains-to_be_removed [] now k t = refl
contains-to_be_removed ((j, s) ∷ d) now k t = elim (Bool-cases (check_validity s now)) [
  | inl valid ↦
      rw valid (ground (arith, contains-to_be_removed d now k, absent-to_be_removed d now k, valid))
  | inr old ↦
      rw (old, t.0)
        (ground (arith, contains-to_be_removed d now k, absent-to_be_removed d now k, old))
]

-- Garbage collection removes the sequences that are not valid at the time, and nothing else.
pub get-collect_garbage :
    (h : FastPacketHandler) (now k : ℕ)
    → IsTable h.sequences
    → get (collect_garbage h now).sequences k ≡ kept now (get h.sequences k)
unfolding collect_garbage
get-collect_garbage h now k t =
    get-remove_all h.sequences (to_be_removed h.sequences now) k
    ∙ contains-to_be_removed h.sequences now k t
