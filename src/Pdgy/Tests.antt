-- ===== src/Pdgy/Tests.antt =====
-- A message of position, and the theorems at concrete inputs, with a code that shifts every byte.
use navigation_server.Base.{
  ℕ, ◌+◌, ◌-◌, ◌≡◌, refl, ap, ap₂, false, Option, some, List, [], ◌∷◌, map, arith,
}
use navigation_server.Base.Decimals.{Lacks}
use navigation_server.Message.{N2kMsg, new_msg}
use navigation_server.Pdgy.{as_pdgy, made, from_pgdy}
use navigation_server.Pdgy.RoundTrip.{from_pgdy-as_pdgy}

abbrev pub shifted : List ℕ → List ℕ
shifted = map (λ b. b + 45)

abbrev pub unshifted : List ℕ → Option (List ℕ)
unshifted bytes = some (map (λ b. b - 45) bytes)

map-shifted : (bytes : List ℕ) → map (λ b. b - 45) (shifted bytes) ≡ bytes
map-shifted [] = refl
map-shifted (b ∷ bs) =
    let same : b + 45 - 45 ≡ b = omega arith in
    ap₂ (λ (x : ℕ) (xs : List ℕ). x ∷ xs) same (map-shifted bs)

pub unshifted-shifted : (bytes : List ℕ) → unshifted (shifted bytes) ≡ some bytes
unshifted-shifted bytes = ap some (map-shifted bytes)

pub shifted-Lacks_44 : (bytes : List ℕ) → Lacks 44 (shifted bytes)
shifted-Lacks_44 [] = tt
shifted-Lacks_44 (b ∷ bs) = (ground arith, shifted-Lacks_44 bs)

pub shifted-Lacks_13 : (bytes : List ℕ) → Lacks 13 (shifted bytes)
shifted-Lacks_13 [] = tt
shifted-Lacks_13 (b ∷ bs) = (ground arith, shifted-Lacks_13 bs)

pub shifted-Lacks_10 : (bytes : List ℕ) → Lacks 10 (shifted bytes)
shifted-Lacks_10 [] = tt
shifted-Lacks_10 (b ∷ bs) = (ground arith, shifted-Lacks_10 bs)

abbrev pub position : N2kMsg
position = record {
  pgn = 129025;
  prio = 2;
  sa = 15;
  da = 0;
  ts = 5000;
  fast_packet = false;
  payload = 1 ∷ 44 ∷ 3 ∷ [];
  is_iso = false;
}

from_pgdy-as_pdgy_example :
    from_pgdy unshifted 9000 (as_pdgy shifted position)
    ≡ made (new_msg 9000 129025 2 15 255 (some (1 ∷ 44 ∷ 3 ∷ [])) 0)
from_pgdy-as_pdgy_example =
    from_pgdy-as_pdgy shifted unshifted unshifted-shifted shifted-Lacks_44 9000 position
