-- ===== src/IsoTransport/Packets.antt =====
-- The packets that `split_message` yields, and what the last of them carries.
use navigation_server.Base.{
  ℕ, zero, suc, ◌+◌, ◌-◌, ◌*◌, ◌/◌, ◌%◌, ◌<◌, min, max, ◌≡◌, refl, ap, sym, subst, false, List, [],
  ◌∷◌, ◌++◌, arith, length, take, drop, replicate, set, length-append, length-take, length-drop,
  take_all, take-append_left, drop_all, drop-append_left, drop-take, take-take, take-set_beyond,
  take-set_last, length-set, ◌==◌, if◌then◌else◌, inl, inr, Bool-cases, append-nil, ==_ne,
}
use navigation_server.IsoTransport.Transfer.{Transaction, split_loop, split_message, last_packet}

-- What arrives of a payload: all of it if it fills its packets, else the last byte is 0xFF, for the
-- filling of the last packet starts at its last byte.
abbrev pub sent : List ℕ → List ℕ
sent payload =
    if length payload % 7 == 0 then payload else take (length payload - 1) payload ++ 0xFF ∷ []

-- The number of packets of a payload of `n` bytes.
abbrev pub packets : ℕ → ℕ
packets n = if n % 7 == 0 then n / 7 else n / 7 + 1

-- The frames from packet `k + 1` on, `left` in all: each has its number and seven bytes, the first
-- of which are the bytes of `sent` at this place.
abbrev pub Carries : List ℕ → ℕ → ℕ → List (List ℕ) → Type 0
Carries payload zero k frames = frames ≡ []
Carries payload (suc left) k frames =
    (content : List ℕ) × (rest : List (List ℕ)) × (frames ≡ ((k + 1) ∷ content) ∷ rest)
    × (length content ≡ 7)
    × (take (min 7 (length payload - 7 * k)) content ≡ take 7 (drop (7 * k) (sent payload)))
    × Carries payload left (k + 1) rest

pub length-sent : (payload : List ℕ) → length (sent payload) ≡ length payload
length-sent payload = elim (Bool-cases (length payload % 7 == 0)) [
  | inl full ↦ rw full
  | inr part ↦ rw part (
      omega (
        arith,
        length-append (take (length payload - 1) payload) (0xFF ∷ []),
        length-take (length payload - 1) payload,
        not_empty (length payload) part,
      ))
]
  where
    not_empty : (n : ℕ) → (n % 7 == 0) ≡ false → 0 < n
    not_empty n e = ground arith

-- The bytes before the last packet are those of the payload.
take-sent :
    (payload : List ℕ) (m ptr : ℕ)
    → ptr + m < length payload
    → take m (drop ptr (sent payload)) ≡ take m (drop ptr payload)
take-sent payload m ptr lt = elim (Bool-cases (length payload % 7 == 0)) [
  | inl full ↦ rw full
  | inr part ↦
      let front = take (length payload - 1) payload in
      let size : length front ≡ length payload - 1 =
        omega (arith, length-take (length payload - 1) payload) in
      rw (
        part,
        drop-append_left ptr front (0xFF ∷ []) (omega arith),
        take-append_left m (drop ptr front) (0xFF ∷ []) (omega (arith, length-drop ptr front)),
        drop-take ptr (length payload - 1) payload,
        take-take m (length payload - 1 - ptr) (drop ptr payload) (omega arith),
      )
]

-- The bytes that the last packet of a payload that does not fill it has to carry.
drop-sent :
    (payload : List ℕ) (ptr : ℕ)
    → (length payload % 7 == 0) ≡ false
    → ptr < length payload
    → drop ptr (sent payload) ≡ take (length payload - 1 - ptr) (drop ptr payload) ++ 0xFF ∷ []
drop-sent payload ptr part lt =
    let front = take (length payload - 1) payload in
    let size : length front ≡ length payload - 1 =
      omega (arith, length-take (length payload - 1) payload) in
    rw (
      part,
      drop-append_left ptr front (0xFF ∷ []) (omega arith),
      drop-take ptr (length payload - 1) payload,
    )

module _ (payload : List ℕ) (t : Transaction) (size : t.total_size ≡ length payload)
    (same : t.buffer ≡ payload) where
  -- A packet that others follow.
  full_packet :
      (k c : ℕ) (r : List ℕ)
      → 7 * (k + 1) < length payload
      → take 1 (set (c ∷ r) 0 (k + 1)) ++ take 7 (drop (7 * k) t.buffer)
        ≡ (k + 1) ∷ take 7 (drop (7 * k) (sent payload))
  unfolding set
  full_packet k c r lt = rw (same, take-sent payload 7 (7 * k) (omega arith))

  last_full :
      (k c : ℕ) (r : List ℕ)
      → length r ≡ 7
      → length payload ≡ 7 * (k + 1)
      → last_packet t (7 * k) (set (c ∷ r) 0 (k + 1)) ≡ (k + 1) ∷ drop (7 * k) payload
  unfolding last_packet set
  last_full k c r seven e =
      let l : t.total_size - 7 * k ≡ 7 = omega arith in
      rw (l, same, drop_all 7 r (omega arith), append-nil)

  last_part :
      (k c m : ℕ) (r : List ℕ)
      → length r ≡ 7
      → length payload ≡ 7 * k + suc m
      → m < 6
      → (content : List ℕ) × (last_packet t (7 * k) (set (c ∷ r) 0 (k + 1)) ≡ (k + 1) ∷ content)
        × (length content ≡ 7)
        × (take (suc m) content ≡ drop (7 * k) (sent payload))
  unfolding last_packet set
  last_part k c m r seven e low =
      let l : t.total_size - 7 * k ≡ suc m = omega arith in
      let stop : max 1 (suc m + 1) ≡ suc (suc m) = omega arith in
      let d = drop (7 * k) payload in
      let filled = d ++ drop (suc m) r in
      let size_d : length d ≡ suc m = omega (arith, length-drop (7 * k) payload) in
      let size_filled : length filled ≡ 7 =
        omega (arith, length-append d (drop (suc m) r), length-drop (suc m) r) in
      let rest : length payload - 1 - 7 * k ≡ m = omega arith in
      (
        set (set filled m 0xFF) 6 0xFF,
        rw (l, same, stop, ==_ne (suc m) 7 (omega arith)),
        omega (arith, length-set (set filled m 0xFF) 6 0xFF, length-set filled m 0xFF),
        rw (
          take-set_beyond (suc m) 6 (set filled m 0xFF) 0xFF (omega arith),
          take-set_last m filled 0xFF (omega arith),
          take-append_left m d (drop (suc m) r) (omega arith),
          drop-sent payload (7 * k) (==_ne (length payload % 7) 0 (omega arith)) (omega arith),
          rest,
        ),
      )

  -- The last packet, in both cases.
  last_packet-Carries :
      (k c : ℕ) (r : List ℕ)
      → length r ≡ 7
      → k + 1 ≡ packets (length payload)
      → (content : List ℕ) × (last_packet t (7 * k) (set (c ∷ r) 0 (k + 1)) ≡ (k + 1) ∷ content)
        × (length content ≡ 7)
        × (take (min 7 (length payload - 7 * k)) content ≡ take 7 (drop (7 * k) (sent payload)))
  last_packet-Carries k c r seven e = elim (Bool-cases (length payload % 7 == 0)) [
    | inl full ↦
        let all : length payload ≡ 7 * (k + 1) = ground arith in
        let width : min 7 (length payload - 7 * k) ≡ 7 = omega arith in
        (
          drop (7 * k) payload,
          last_full k c r seven all,
          omega (arith, length-drop (7 * k) payload),
          rw (full, width),
        )
    | inr part ↦
        let m = length payload - 7 * k - 1 in
        let filled : length payload ≡ 7 * k + suc m = ground arith in
        let low : m < 6 = ground arith in
        let width : min 7 (length payload - 7 * k) ≡ suc m = omega arith in
        let (content, is_last, size7, bytes) = last_part k c m r seven filled low in
        (
          content,
          is_last,
          size7,
          rw (width, bytes)
              (sym (
                take_all 7 (drop (7 * k) (sent payload))
                  (omega (arith, length-drop (7 * k) (sent payload), length-sent payload)))),
        )
  ]

  split_loop-Carries :
      (left k c : ℕ) (r : List ℕ)
      → length r ≡ 7
      → k + left ≡ packets (length payload)
      → Carries payload left k (split_loop t left (k + 1) (7 * k) (c ∷ r))
  unfolding split_loop
  split_loop-Carries zero k c r seven e = refl
  split_loop-Carries (suc zero) k c r seven e =
      let (content, is_last, size7, bytes) = last_packet-Carries k c r seven e in
      (content, [], ap (λ f. f ∷ []) is_last, size7, bytes, refl)
  split_loop-Carries (suc (suc left)) k c r seven e =
      let more : 7 * (k + 1) < length payload = ground arith in
      let content = take 7 (drop (7 * k) t.buffer) in
      let bytes : content ≡ take 7 (drop (7 * k) (sent payload)) =
        rw (same, take-sent payload 7 (7 * k) (omega arith)) in
      let size7 : length content ≡ 7 =
        rw same
          (omega (arith, length-take 7 (drop (7 * k) payload), length-drop (7 * k) payload)) in
      let next : 7 * k + 7 ≡ 7 * (k + 1) = omega arith in
      let width : min 7 (length payload - 7 * k) ≡ 7 = omega arith in
      (
        content,
        split_loop t (suc left) (k + 1 + 1) (7 * (k + 1)) ((k + 1) ∷ content),
        rw next,
        size7,
        rw (width, take_all 7 content (omega arith)) bytes,
        split_loop-Carries (suc left) (k + 1) (k + 1) content size7 (omega arith),
      )

-- All packets of a transaction.
pub split_message-Carries :
    (payload : List ℕ) (t : Transaction)
    → t.total_size ≡ length payload
    → t.buffer ≡ payload
    → t.nb_packets ≡ packets (length payload)
    → Carries payload (packets (length payload)) 0 (split_message t)
unfolding split_message
split_message-Carries payload t size same count =
    subst (λ (n : ℕ). Carries payload n 0 (split_loop t t.nb_packets 1 0 (replicate 8 0))) count
      (split_loop-Carries payload t size same t.nb_packets 0 0 (replicate 7 0) refl
        (omega (arith, count)))
