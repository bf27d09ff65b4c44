-- ===== src/Couplers/Tagged.antt =====
-- Sentences that a Miniplex sends with a tag in front.
use navigation_server.Base.{
  ℕ, suc, ◌+◌, ◌≡◌, ◌≢◌, refl, sym, ap, ◌∙◌, bit_xor, false, none, some, List, [], ◌∷◌, ◌++◌, ◌⊎◌,
  inl, inr, err, invalid_frame, length, drop, arith, Option-cases, ==_refl,
}
use navigation_server.Base.Bits.Xor.{xor_cancel, xor_comm}
use navigation_server.Base.Texts.{index}
use navigation_server.Nmea0183.{b_checksum, checked}
use navigation_server.Nmea0183.Checksum.{AllBytes, b_checksum-byte, b_checksum-cons, xor_injective}
use navigation_server.Nmea0183.Sentence.{line, written, checked-line, nmea0183-wrong}
use navigation_server.Couplers.Shipmodul.{Shipmodul, shipmodul_process_frame, without_tag}

index-behind :
    (c : ℕ) (xs ys : List ℕ) → index c xs ≡ none → index c (xs ++ c ∷ ys) ≡ some (length xs)
unfolding index
index-behind c [] ys h = rw (==_refl c) refl
index-behind c (x ∷ xs) ys h = elim (Option-cases (index c xs)) [
  | inl e ↦ let more = index-behind c xs ys e in ground (arith, e, more)
  | inr (j, e) ↦ ground (arith, e)
]

-- One byte too few is dropped.
drop_short : (x : ℕ) (xs ys : List ℕ) → (z : ℕ) × (drop (length xs) (x ∷ (xs ++ ys)) ≡ z ∷ ys)
drop_short x [] ys = (x, refl)
drop_short x (w ∷ ws) ys = drop_short w ws ys

backslash_differs : (d : ℕ) (body : List ℕ) → d ≢ 92 → b_checksum body ≢ b_checksum (92 ∷ d ∷ body)
backslash_differs d body ne e =
    let v = b_checksum body in
    let unfolded : v ≡ bit_xor 92 (bit_xor d v) =
      e ∙ b_checksum-cons 92 (d ∷ body) ∙ ap (bit_xor 92) (b_checksum-cons d body) in
    let swapped : bit_xor 92 v ≡ bit_xor d v =
      ap (bit_xor 92) unfolded ∙ xor_cancel 92 (bit_xor d v) in
    ne (sym (xor_injective v 92 d (xor_comm v 92 ∙ swapped ∙ xor_comm d v)))

-- While no connection check is going on, a sentence of bytes with a correct checksum that comes with a
-- tag in front is always refused: of the tag, its last byte and its closing backslash are left in front
-- of the sentence.
pub tagged_refused :
    (s : Shipmodul) (tag body : List ℕ) (d : ℕ)
    → s.check_in_progress ≡ false
    → index 92 tag ≡ none
    → AllBytes body
    → (d ≡ 36) ⊎ (d ≡ 33)
    → (shipmodul_process_frame s (92 ∷ 115 ∷ (tag ++ 92 ∷ checked (d ∷ body)))).0
      ≡ err invalid_frame
unfolding shipmodul_process_frame without_tag
tagged_refused s tag body d quiet no_end bytes begins =
    let (p, q, shape, value) = written (b_checksum body) (b_checksum-byte body bytes) in
    let (z, cut) = drop_short 115 tag (92 ∷ checked (d ∷ body)) in
    let place : length tag + 1 ≡ suc (length tag) = omega arith in
    let ne : d ≢ 92 = λ e. grind arith in
    let rest : drop (length tag + 1) (92 ∷ 115 ∷ (tag ++ 92 ∷ checked (d ∷ body)))
        ≡ line z (92 ∷ d ∷ body) p q =
      ap (λ (k : ℕ). drop k (92 ∷ 115 ∷ (tag ++ 92 ∷ checked (d ∷ body)))) place
      ∙ cut
      ∙ ap (λ (t : List ℕ). z ∷ 92 ∷ t) (checked-line d body p q shape) in
    rw (quiet, index-behind 92 tag (checked (d ∷ body)) no_end)
      (rw rest (
        rw
          (nmea0183-wrong z (92 ∷ d ∷ body) p q (b_checksum body) value
            (backslash_differs d body ne))
          refl))
