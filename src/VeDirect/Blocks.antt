-- ===== src/VeDirect/Blocks.antt =====
-- Blocks of a device, one after the other.
use navigation_server.Base.{
  ℕ, ◌+◌, ◌≤◌, ◌≡◌, refl, ◌∙◌, false, List, [], ◌∷◌, ◌++◌, ◌==◌, length, length-append, arith,
  append_assoc, Bool-cases, inl, inr,
}
use navigation_server.VeDirect.{
  text, Fields, set_value, wait_header, in_key, in_value, in_checksum, with_marker, Put, run,
  checksum_key,
}
use navigation_server.Base.Texts.{text_eq}
use navigation_server.VeDirect.Text.{
  sum, sum-append, IsFree, reading, run-quiet, run-key, run-value,
}

-- Labels and values of a block, in order.
abbrev pub Lines : Type 0
Lines = List (List ℕ × List ℕ)

abbrev pub line : List ℕ → List ℕ → List ℕ
line k x = k ++ 9 ∷ (x ++ 13 ∷ 10 ∷ [])

abbrev pub print : Lines → List ℕ → List ℕ
print [] tail = tail
print ((k, x) ∷ fs) tail = k ++ 9 ∷ (x ++ 13 ∷ 10 ∷ print fs tail)

-- What the device sends: an end of line, the lines, and the checksum.
abbrev pub block : Lines → ℕ → List ℕ
block fs c = 13 ∷ 10 ∷ print fs (checksum_key ++ 9 ∷ c ∷ [])

abbrev pub AreLines : Lines → Type 0
AreLines [] = Unit
AreLines ((k, x) ∷ fs) = IsFree 9 k × (text_eq k checksum_key ≡ false) × IsFree 13 x × AreLines fs

-- The dictionary with the lines of a block.
abbrev pub collect : Fields → Lines → Fields
collect d [] = d
collect d ((k, x) ∷ fs) = collect (set_value d k (text x)) fs

abbrev pub total : ℕ → Lines → ℕ
total s [] = s
total s ((k, x) ∷ fs) = total (s + sum (line k x)) fs

abbrev pub grow : List ℕ → Lines → List ℕ
grow b [] = b
grow b ((k, x) ∷ fs) = grow (b ++ line k x) fs

pub print-append :
    (fs : Lines) (tail rest : List ℕ) → print fs tail ++ rest ≡ print fs (tail ++ rest)
print-append [] tail rest = refl
print-append ((k, x) ∷ fs) tail rest =
    append_assoc k (9 ∷ (x ++ 13 ∷ 10 ∷ print fs tail)) rest
    ∙ rw (append_assoc x (13 ∷ 10 ∷ print fs tail) rest, print-append fs tail rest) refl

pub sum-print :
    (s : ℕ) (fs : Lines) (tail : List ℕ) → total s fs + sum tail ≡ s + sum (print fs tail)
sum-print s [] tail = refl
sum-print s ((k, x) ∷ fs) tail =
    let ih = sum-print (s + sum (line k x)) fs tail in
    let a = sum-append k (9 ∷ (x ++ 13 ∷ 10 ∷ [])) in
    let b = sum-append x (13 ∷ 10 ∷ []) in
    let c = sum-append k (9 ∷ (x ++ 13 ∷ 10 ∷ print fs tail)) in
    let e = sum-append x (13 ∷ 10 ∷ print fs tail) in omega (arith, ih, a, b, c, e)

length-line : (k x : List ℕ) → length (line k x) ≡ length k + length x + 3
length-line k x =
    let a = length-append k (9 ∷ (x ++ 13 ∷ 10 ∷ [])) in
    let b = length-append x (13 ∷ 10 ∷ []) in omega (arith, a, b)

pub length-grow :
    (b : List ℕ) (fs : Lines) (tail : List ℕ)
    → length (grow b fs) + length tail ≡ length b + length (print fs tail)
length-grow b [] tail = refl
length-grow b ((k, x) ∷ fs) tail =
    let ih = length-grow (b ++ line k x) fs tail in
    let a = length-append b (line k x) in
    let l = length-line k x in
    let c = length-append k (9 ∷ (x ++ 13 ∷ 10 ∷ print fs tail)) in
    let e = length-append x (13 ∷ 10 ∷ print fs tail) in omega (arith, ih, a, l, c, e)

pub marker-in_checksum : (c : ℕ) → with_marker in_checksum c ≡ in_checksum
marker-in_checksum c = elim (Bool-cases (c == 58)) [ inl e ↦ rw e refl | inr e ↦ rw e refl ]

module _ (puts : ℕ → Put) (n : ℕ) where
  run-line :
      (s : ℕ) (d : Fields) (b k x rest : List ℕ)
      → IsFree 9 k
      → text_eq k checksum_key ≡ false
      → IsFree 13 x
      → length b + length (line k x) ≤ 512
      → run puts n (reading in_key [] [] s d b) (k ++ 9 ∷ (x ++ 13 ∷ 10 ∷ rest))
        ≡ run puts n
            (reading in_key [] [] (s + sum (line k x)) (set_value d k (text x)) (b ++ line k x))
            rest
  run-line s d b k x rest free_k other free_x room =
      let size = length-line k x in
      let one = length-append b k in
      let two = length-append (b ++ k) (9 ∷ []) in
      let three = length-append ((b ++ k) ++ 9 ∷ []) x in
      let four = length-append (((b ++ k) ++ 9 ∷ []) ++ x) (13 ∷ []) in
      run-key puts n [] [] s d b k (9 ∷ (x ++ 13 ∷ 10 ∷ rest)) free_k (omega (arith, room, size))
      ∙ run-quiet puts n (reading in_key k [] (s + sum k) d (b ++ k))
          (reading in_value k [] (s + sum k + 9) d ((b ++ k) ++ 9 ∷ [])) 9 (x ++ 13 ∷ 10 ∷ rest)
          (omega (arith, room, size, one)) (rw other refl)
      ∙ run-value puts n k [] (s + sum k + 9) d ((b ++ k) ++ 9 ∷ []) x (13 ∷ 10 ∷ rest) free_x
          (omega (arith, room, size, one, two))
      ∙ run-quiet puts n
          (reading in_value k x (s + sum k + 9 + sum x) d (((b ++ k) ++ 9 ∷ []) ++ x))
          (reading wait_header [] [] (s + sum k + 9 + sum x + 13) (set_value d k (text x))
            ((((b ++ k) ++ 9 ∷ []) ++ x) ++ 13 ∷ []))
          13 (10 ∷ rest) (omega (arith, room, size, one, two, three)) refl
      ∙ run-quiet puts n
          (reading wait_header [] [] (s + sum k + 9 + sum x + 13) (set_value d k (text x))
            ((((b ++ k) ++ 9 ∷ []) ++ x) ++ 13 ∷ []))
          (reading in_key [] [] (s + sum k + 9 + sum x + 13 + 10) (set_value d k (text x))
            (((((b ++ k) ++ 9 ∷ []) ++ x) ++ 13 ∷ []) ++ 10 ∷ []))
          10 rest (omega (arith, room, size, one, two, three, four)) refl
      ∙ rw (sums, buffers) refl
    where
      sums : s + sum k + 9 + sum x + 13 + 10 ≡ s + sum (line k x)
      sums =
          let a = sum-append k (9 ∷ (x ++ 13 ∷ 10 ∷ [])) in
          let b' = sum-append x (13 ∷ 10 ∷ []) in omega (arith, a, b')

      buffers : ((((b ++ k) ++ 9 ∷ []) ++ x) ++ 13 ∷ []) ++ 10 ∷ [] ≡ b ++ line k x
      buffers = simp append_assoc

  pub run-lines :
      (s : ℕ) (d : Fields) (b : List ℕ) (fs : Lines) (rest : List ℕ)
      → AreLines fs
      → length (grow b fs) ≤ 512
      → run puts n (reading in_key [] [] s d b) (print fs rest)
        ≡ run puts n (reading in_key [] [] (total s fs) (collect d fs) (grow b fs)) rest
  run-lines s d b [] rest lines room = refl
  run-lines s d b ((k, x) ∷ fs) rest (free_k, other, free_x, lines) room =
      let size = length-append b (line k x) in
      let more = length-grow (b ++ line k x) fs [] in
      run-line s d b k x (print fs rest) free_k other free_x (omega (arith, room, size, more))
      ∙ run-lines (s + sum (line k x)) (set_value d k (text x)) (b ++ line k x) fs rest lines room
