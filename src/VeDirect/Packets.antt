-- ===== src/VeDirect/Packets.antt =====
-- What packets come of blocks, right ones and wrong ones.
use navigation_server.Base.{
  ℕ, suc, ◌+◌, ◌%◌, ◌≤◌, ◌≡◌, ◌≢◌, refl, ap, ◌∙◌, true, false, none, some, List, [], ◌∷◌, ◌++◌,
  ◌==◌, ==_iff, ==_ne, if◌then◌else◌, length, length-append, arith, append_assoc,
}
use navigation_server.VeDirect.{
  Fields, State, wait_header, in_key, in_checksum, Vedirect, in_state, input, Put, delivered,
  after_put, stamped, run, checksum_key,
}
use navigation_server.VeDirect.Text.{
  sum, IsFree, reading, input-room, run-none, run-packet, run-quiet, run-key,
}
use navigation_server.VeDirect.Blocks.{
  Lines, print, block, AreLines, collect, total, grow, print-append, sum-print, length-grow,
  marker-in_checksum, run-lines,
}

abbrev pub idle : Fields → List ℕ → Vedirect
idle d b = reading wait_header [] [] 0 d b

-- The buffer after a block.
abbrev full_buffer : List ℕ → Lines → ℕ → List ℕ
full_buffer b fs c = ((grow (b ++ 13 ∷ 10 ∷ []) fs ++ checksum_key) ++ 9 ∷ []) ++ c ∷ []

checksum_key-IsFree : IsFree 9 checksum_key
checksum_key-IsFree = ground arith

-- The sums of a block, and the room that it takes.
sum-block : (fs : Lines) (c : ℕ) → total 23 fs + sum checksum_key + 9 + c ≡ sum (block fs c)
sum-block fs c = let all = sum-print 23 fs (checksum_key ++ 9 ∷ c ∷ []) in omega (arith, all)

block_room :
    (b : List ℕ) (fs : Lines) (c : ℕ)
    → length ((grow (b ++ 13 ∷ 10 ∷ []) fs ++ checksum_key) ++ 9 ∷ []) + 1
      ≡ length b + length (block fs c)
block_room b fs c =
    let size = length-grow (b ++ 13 ∷ 10 ∷ []) fs (checksum_key ++ 9 ∷ c ∷ []) in
    let start = length-append b (13 ∷ 10 ∷ []) in
    let keyed = length-append (grow (b ++ 13 ∷ 10 ∷ []) fs) checksum_key in
    let last = length-append (grow (b ++ 13 ∷ 10 ∷ []) fs ++ checksum_key) (9 ∷ []) in
    omega (arith, size, start, keyed, last)

input-checksum :
    (s : ℕ) (d : Fields) (b : List ℕ) (c : ℕ)
    → length b + 1 ≤ 512
    → input (reading in_checksum checksum_key [] s d b) c
      ≡ (if (s + c) % 256 == 0 then some d else none, idle d (b ++ c ∷ []))
input-checksum s d b c room =
    input-room (reading in_checksum checksum_key [] s d b) c room
    ∙ ap
        (λ (state : State).
          in_state state
            (record (reading in_checksum checksum_key [] s d b) {
              buffer = b ++ c ∷ [];
              state = state;
            })
            c)
        (marker-in_checksum c)

module _ (puts : ℕ → Put) (n : ℕ) where
  run-block :
      (d : Fields) (b : List ℕ) (fs : Lines) (c : ℕ) (rest : List ℕ)
      → AreLines fs
      → length b + length (block fs c) ≤ 512
      → run puts n (idle d b) (block fs c ++ rest)
        ≡ run puts n
            (reading in_checksum checksum_key []
              (total 23 fs + sum checksum_key + 9)
              (collect d fs)
              ((grow (b ++ 13 ∷ 10 ∷ []) fs ++ checksum_key) ++ 9 ∷ []))
            (c ∷ rest)
  run-block d b fs c rest lines room =
      let tail = checksum_key ++ 9 ∷ c ∷ [] in
      let size = length-grow (b ++ 13 ∷ 10 ∷ []) fs tail in
      let start = length-append b (13 ∷ 10 ∷ []) in
      let start_one = length-append b (13 ∷ []) in
      let keyed = length-append (grow (b ++ 13 ∷ 10 ∷ []) fs) checksum_key in
      ap (λ (l : List ℕ). run puts n (idle d b) (13 ∷ 10 ∷ l)) (print-append fs tail rest)
      ∙ run-quiet puts n (idle d b) (reading wait_header [] [] 13 d (b ++ 13 ∷ [])) 13
          (10 ∷ print fs (checksum_key ++ 9 ∷ c ∷ rest)) (omega (arith, room)) refl
      ∙ run-quiet puts n (reading wait_header [] [] 13 d (b ++ 13 ∷ []))
          (reading in_key [] [] 23 d ((b ++ 13 ∷ []) ++ 10 ∷ [])) 10
          (print fs (checksum_key ++ 9 ∷ c ∷ rest)) (omega (arith, room, start_one)) refl
      ∙ ap
          (λ (l : List ℕ).
            run puts n (reading in_key [] [] 23 d l) (print fs (checksum_key ++ 9 ∷ c ∷ rest)))
          (append_assoc b (13 ∷ []) (10 ∷ []))
      ∙ run-lines puts n 23 d (b ++ 13 ∷ 10 ∷ []) fs (checksum_key ++ 9 ∷ c ∷ rest) lines
          (omega (arith, room, size, start))
      ∙ run-key puts n [] [] (total 23 fs) (collect d fs) (grow (b ++ 13 ∷ 10 ∷ []) fs) checksum_key
          (9 ∷ c ∷ rest) checksum_key-IsFree (omega (arith, room, size, start))
      ∙ run-quiet puts n
          (reading in_key checksum_key [] (total 23 fs + sum checksum_key) (collect d fs)
            (grow (b ++ 13 ∷ 10 ∷ []) fs ++ checksum_key))
          (reading in_checksum checksum_key [] (total 23 fs + sum checksum_key + 9) (collect d fs)
            ((grow (b ++ 13 ∷ 10 ∷ []) fs ++ checksum_key) ++ 9 ∷ []))
          9 (c ∷ rest) (omega (arith, room, size, start, keyed)) refl

  pub run-good :
      (d : Fields) (b : List ℕ) (fs : Lines) (c : ℕ) (rest : List ℕ)
      → AreLines fs
      → length b + length (block fs c) ≤ 512
      → sum (block fs c) % 256 ≡ 0
      → run puts n (idle d b) (block fs c ++ rest)
        ≡ delivered (puts n) (collect d fs) (
            run puts
              (suc n)
              (after_put (puts n) (idle (collect d fs) (full_buffer b fs c)) (collect d fs))
              rest)
  run-good d b fs c rest lines room right =
      let s = total 23 fs + sum checksum_key + 9 in
      let buffer = (grow (b ++ 13 ∷ 10 ∷ []) fs ++ checksum_key) ++ 9 ∷ [] in
      let space = block_room b fs c in
      let all = sum-block fs c in
      let good : ((s + c) % 256 == 0) ≡ true =
        (==_iff ((s + c) % 256) 0).1 (omega (arith, all, right)) in
      run-block d b fs c rest lines room
      ∙ run-packet puts n (reading in_checksum checksum_key [] s (collect d fs) buffer)
          (idle (collect d fs) (full_buffer b fs c)) (collect d fs) c rest
          (input-checksum s (collect d fs) buffer c (omega (arith, space, room)) ∙ rw good refl)

  pub run-bad :
      (d : Fields) (b : List ℕ) (fs : Lines) (c : ℕ) (rest : List ℕ)
      → AreLines fs
      → length b + length (block fs c) ≤ 512
      → sum (block fs c) % 256 ≢ 0
      → run puts n (idle d b) (block fs c ++ rest)
        ≡ run puts n (idle (collect d fs) (full_buffer b fs c)) rest
  run-bad d b fs c rest lines room wrong =
      let s = total 23 fs + sum checksum_key + 9 in
      let buffer = (grow (b ++ 13 ∷ 10 ∷ []) fs ++ checksum_key) ++ 9 ∷ [] in
      let space = block_room b fs c in
      let all = sum-block fs c in
      let bad : ((s + c) % 256 == 0) ≡ false =
        ==_ne ((s + c) % 256) 0 (λ (e : (s + c) % 256 ≡ 0). wrong (omega (arith, all, e))) in
      run-block d b fs c rest lines room
      ∙ run-none puts n (reading in_checksum checksum_key [] s (collect d fs) buffer)
          (idle (collect d fs) (full_buffer b fs c)) c rest
          (input-checksum s (collect d fs) buffer c (omega (arith, space, room)) ∙ rw bad refl)

-- Blocks with their checksums, and what they are as bytes.
abbrev pub stream : List (Lines × ℕ) → List ℕ
stream [] = []
stream ((fs, c) ∷ blocks) = block fs c ++ stream blocks

-- Each block has lines in order, fits the buffer, and has the right checksum.
abbrev pub AreBlocks : List (Lines × ℕ) → Type 0
AreBlocks [] = Unit
AreBlocks ((fs, c) ∷ blocks) =
    AreLines fs × (length (block fs c) ≤ 512) × (sum (block fs c) % 256 ≡ 0) × AreBlocks blocks

-- The packets that are expected: the lines of each block, with the time of its put.
abbrev pub packets : (ℕ → Put) → ℕ → List (Lines × ℕ) → List Fields
packets puts n [] = []
packets puts n ((fs, c) ∷ blocks) = stamped (puts n) (collect [] fs) ∷ packets puts (suc n) blocks

-- While the queue takes all packets, blocks of lines that fit the buffer and have right checksums,
-- one after the other, give exactly one packet each, in order, with the fields of the block and
-- the time of the put, and the reader is then as at first.
pub run-stream :
    (puts : ℕ → Put) (n : ℕ) (blocks : List (Lines × ℕ))
    → ((m : ℕ) → (puts m).full ≡ false)
    → AreBlocks blocks
    → run puts n (idle [] []) (stream blocks) ≡ (packets puts n blocks, idle [] [])
unfolding run
run-stream puts n [] room blocks = refl
run-stream puts n ((fs, c) ∷ blocks) room (lines, fits, right, others) =
    run-good puts n [] [] fs c (stream blocks) lines (omega (arith, fits)) right
    ∙ rw (room n) (rw (run-stream puts (suc n) blocks room others) refl)
