-- ===== src/VeDirect/Text.antt =====
-- The bytes inside a block.
use navigation_server.Base.{
  ℕ, suc, ◌+◌, ◌≤◌, ◌≡◌, refl, ap, ◌∙◌, false, Option, none, some, List, [], ◌∷◌, ◌++◌, leb-false,
  ◌==◌, length, length-append, arith, append_assoc, append-nil,
}
use navigation_server.VeDirect.{
  Fields, State, in_key, in_value, Vedirect, with_marker, in_state, input, Put, delivered,
  after_put, run,
}

abbrev pub sum : List ℕ → ℕ
sum [] = 0
sum (b ∷ bs) = b + sum bs

pub sum-append : (xs ys : List ℕ) → sum (xs ++ ys) ≡ sum xs + sum ys
sum-append [] ys = omega arith
sum-append (x ∷ xs) ys = omega (arith, sum-append xs ys)

add_zero : (s : ℕ) → s + 0 ≡ s
add_zero s = omega arith

plus : (a b c : ℕ) → (a + b) + c ≡ a + (b + c)
plus a b c = omega arith

-- No colon, and not the byte that ends the text.
abbrev pub IsFree : ℕ → List ℕ → Type 0
IsFree end [] = Unit
IsFree end (b ∷ bs) = ((b == 58) ≡ false) × ((b == end) ≡ false) × IsFree end bs

abbrev pub reading : State → List ℕ → List ℕ → ℕ → Fields → List ℕ → Vedirect
reading state key value bytes_sum dict buffer = record {
  key = key;
  value = value;
  bytes_sum = bytes_sum;
  state = state;
  dict = dict;
  buffer = buffer;
}

pub input-room :
    (v : Vedirect) (byte : ℕ)
    → length v.buffer + 1 ≤ 512
    → input v byte
      ≡ in_state
          (with_marker v.state byte)
          (record v { buffer = v.buffer ++ byte ∷ []; state = with_marker v.state byte })
          byte
unfolding input
input-room v byte room = rw (leb-false 512 (length v.buffer) (omega (arith, room))) refl

module _ (puts : ℕ → Put) (n : ℕ) where
  pub run-none :
      (v w : Vedirect) (byte : ℕ) (rest : List ℕ)
      → input v byte ≡ (none, w)
      → run puts n v (byte ∷ rest) ≡ run puts n w rest
  unfolding run
  run-none v w byte rest one =
      rw (one, run) (ap (λ (o : Option Fields × Vedirect). run puts n o.1 rest) one)

  pub run-packet :
      (v w : Vedirect) (packet : Fields) (byte : ℕ) (rest : List ℕ)
      → input v byte ≡ (some packet, w)
      → run puts n v (byte ∷ rest)
        ≡ delivered (puts n) packet (run puts (suc n) (after_put (puts n) w packet) rest)
  unfolding run
  run-packet v w packet byte rest one =
      rw (one, run)
        (ap
          (λ (o : Option Fields × Vedirect).
            delivered (puts n) packet (run puts (suc n) (after_put (puts n) o.1 packet) rest))
          one)

  -- A byte for which the loop goes on without a packet.
  pub run-quiet :
      (v w : Vedirect) (byte : ℕ) (rest : List ℕ)
      → length v.buffer + 1 ≤ 512
      → in_state
          (with_marker v.state byte)
          (record v { buffer = v.buffer ++ byte ∷ []; state = with_marker v.state byte })
          byte
        ≡ (none, w)
      → run puts n v (byte ∷ rest) ≡ run puts n w rest
  run-quiet v w byte rest room h = run-none v w byte rest (input-room v byte room ∙ h)

  -- The bytes of a key.
  pub run-key :
      (k x : List ℕ) (s : ℕ) (d : Fields) (b bytes rest : List ℕ)
      → IsFree 9 bytes
      → length b + length bytes ≤ 512
      → run puts n (reading in_key k x s d b) (bytes ++ rest)
        ≡ run puts n (reading in_key (k ++ bytes) x (s + sum bytes) d (b ++ bytes)) rest
  run-key k x s d b [] rest free room = rw (append-nil k, append-nil b, add_zero s) refl
  run-key k x s d b (c ∷ bytes) rest (colon, end, free) room =
      run-quiet (reading in_key k x s d b) (reading in_key (k ++ c ∷ []) x (s + c) d (b ++ c ∷ []))
        c (bytes ++ rest) (omega (arith, room)) (rw (colon, end) refl)
      ∙ run-key (k ++ c ∷ []) x (s + c) d (b ++ c ∷ []) bytes rest free
          (let one = length-append b (c ∷ []) in omega (arith, one, room))
      ∙ rw (append_assoc k (c ∷ []) bytes, append_assoc b (c ∷ []) bytes, plus s c (sum bytes)) refl

  -- The bytes of a value.
  pub run-value :
      (k x : List ℕ) (s : ℕ) (d : Fields) (b bytes rest : List ℕ)
      → IsFree 13 bytes
      → length b + length bytes ≤ 512
      → run puts n (reading in_value k x s d b) (bytes ++ rest)
        ≡ run puts n (reading in_value k (x ++ bytes) (s + sum bytes) d (b ++ bytes)) rest
  run-value k x s d b [] rest free room = rw (append-nil x, append-nil b, add_zero s) refl
  run-value k x s d b (c ∷ bytes) rest (colon, end, free) room =
      run-quiet (reading in_value k x s d b)
        (reading in_value k (x ++ c ∷ []) (s + c) d (b ++ c ∷ [])) c (bytes ++ rest)
        (omega (arith, room)) (rw (colon, end) refl)
      ∙ run-value k (x ++ c ∷ []) (s + c) d (b ++ c ∷ []) bytes rest free
          (let one = length-append b (c ∷ []) in omega (arith, one, room))
      ∙ rw (append_assoc x (c ∷ []) bytes, append_assoc b (c ∷ []) bytes, plus s c (sum bytes)) refl
