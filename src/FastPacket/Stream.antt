-- ===== src/FastPacket/Stream.antt =====
-- The frames that `split_message` yields for a payload of 7 to 223 bytes, one by one.
use navigation_server.Base.{
  ℕ, zero, suc, ◌+◌, ◌-◌, ◌*◌, ◌/◌, ◌≤◌, ◌<◌, min, max, bit_or, ◌≡◌, refl, List, [], ◌∷◌, ◌++◌,
  arith, length, take, drop, replicate, length-append, length-take, length-drop, length-replicate,
  ok, ltb-false, lt→ltb, append-nil, ==_ne,
}
use navigation_server.Base.Bits.{or_fields, and_low_mask}
use navigation_server.FastPacket.Handler.{seq_of, counter_of}
use navigation_server.FastPacket.Split.{split_frame, split_loop}

-- The first byte of frame `k` of sequence 1.
pub head-eq : (k : ℕ) → k < 32 → bit_or 32 k ≡ 32 + k
head-eq k h = or_fields 5 1 k h

pub seq_of-head : (k : ℕ) → k < 32 → seq_of (32 + k) ≡ 1
unfolding seq_of
seq_of-head k h = omega (arith, and_low_mask 3 ((32 + k) / 32))

pub counter_of-head : (k : ℕ) → k < 32 → counter_of (32 + k) ≡ k
unfolding counter_of
counter_of-head k h = omega (arith, and_low_mask 5 (32 + k))

-- The data that frame `k` carries after the first: seven bytes, the last ones filled with 0xFF.
abbrev pub body : List ℕ → ℕ → List ℕ
body payload k =
    let rest = length payload - (7 * k - 1) in
    take (min 7 rest) (drop (7 * k - 1) payload) ++ replicate (7 - rest) 0xFF

pub length-body : (payload : List ℕ) (k : ℕ) → length (body payload k) ≡ 7
length-body payload k =
    let rest = length payload - (7 * k - 1) in
    omega (
      arith,
      length-append (take (min 7 rest) (drop (7 * k - 1) payload)) (replicate (7 - rest) 0xFF),
      length-take (min 7 rest) (drop (7 * k - 1) payload),
      length-drop (7 * k - 1) payload,
      length-replicate {A = ℕ} (7 - rest) 0xFF,
    )

pub split_frame-zero :
    (payload : List ℕ)
    → 7 ≤ length payload
    → length payload ≤ 255
    → split_frame 32 payload 0 0 ≡ ok (32 ∷ length payload ∷ take 6 payload, 6)
unfolding split_frame
split_frame-zero payload low high =
    let size : min 8 (length payload - 0 + 1) ≡ 8 = omega arith in
    rw (ltb-false 255 (length payload) high, size, append-nil)

-- A later frame of a payload that has bytes left for it.
pub split_frame-suc :
    (payload : List ℕ) (k : ℕ)
    → 0 < k
    → k < 32
    → split_frame 32 payload k (7 * k - 1)
      ≡ ok ((32 + k) ∷ body payload k, 7 * k - 1 + min 7 (length payload - (7 * k - 1)))
unfolding split_frame
split_frame-suc payload k pos low =
    let rest = length payload - (7 * k - 1) in
    let size : min 8 (rest + 1) - 1 ≡ min 7 rest = omega arith in
    let fill : 8 - max 1 (min 8 (rest + 1)) ≡ 7 - rest = omega arith in
    rw (head-eq k low, ltb-false 255 (32 + k) (omega arith), ==_ne k 0 (omega arith), size, fill)

-- Past the last frame the loop ends.
pub split_loop_end :
    (fuel k ptr : ℕ) (payload : List ℕ)
    → length payload < 7 * k
    → split_loop fuel 32 payload k ptr ≡ ([], ok tt)
unfolding split_loop
split_loop_end zero k ptr payload h = refl
split_loop_end (suc fuel) k ptr payload h =
    rw (ltb-false (k * 7) (length payload + 1) (omega arith))

pub split_loop_last :
    (fuel k : ℕ) (payload : List ℕ)
    → 0 < k
    → k < 32
    → 7 * k ≤ length payload
    → length payload < 7 * (k + 1)
    → split_loop (suc fuel) 32 payload k (7 * k - 1) ≡ (((32 + k) ∷ body payload k) ∷ [], ok tt)
unfolding split_loop
split_loop_last fuel k payload pos low le lt = rw (
  lt→ltb (k * 7) (length payload + 1) (omega arith),
  split_frame-suc payload k pos low,
  split_loop_end fuel (k + 1) (7 * k - 1 + min 7 (length payload - (7 * k - 1))) payload lt,
)

pub split_loop_more :
    (fuel k : ℕ) (payload : List ℕ)
    → 0 < k
    → k < 32
    → 7 * (k + 1) ≤ length payload
    → split_loop (suc fuel) 32 payload k (7 * k - 1) ≡ (
      ((32 + k) ∷ body payload k) ∷ (split_loop fuel 32 payload (k + 1) (7 * (k + 1) - 1)).0,
      (split_loop fuel 32 payload (k + 1) (7 * (k + 1) - 1)).1,
    )
unfolding split_loop
split_loop_more fuel k payload pos low le =
    let next : 7 * k - 1 + min 7 (length payload - (7 * k - 1)) ≡ 7 * (k + 1) - 1 = omega arith in
    rw (lt→ltb (k * 7) (length payload + 1) (omega arith), split_frame-suc payload k pos low, next)

pub split_loop_first :
    (fuel : ℕ) (payload : List ℕ)
    → 7 ≤ length payload
    → length payload ≤ 255
    → split_loop (suc fuel) 32 payload 0 0 ≡ (
      (32 ∷ length payload ∷ take 6 payload) ∷ (split_loop fuel 32 payload 1 6).0,
      (split_loop fuel 32 payload 1 6).1,
    )
unfolding split_loop
split_loop_first fuel payload low high =
    rw (lt→ltb 0 (length payload + 1) (omega arith), split_frame-zero payload low high)
