-- ===== src/VeDirect/Tests.antt =====
-- Blocks of a charger, and the theorems at concrete inputs.
use navigation_server.Base.{ℕ, ◌+◌, ◌≡◌, refl, false, [], ◌∷◌, arith}
use navigation_server.VeDirect.{Put, run}
use navigation_server.VeDirect.Blocks.{Lines}
use navigation_server.VeDirect.Packets.{idle, stream, packets, run-stream}

-- V 12, and I 7 with V 13.
abbrev first_lines : Lines
first_lines = ((86 ∷ []), (49 ∷ 50 ∷ [])) ∷ []

abbrev second_lines : Lines
second_lines = ((73 ∷ []), (55 ∷ [])) ∷ ((86 ∷ []), (49 ∷ 51 ∷ [])) ∷ []

-- The queue takes packet `m` at time 100 + m.
abbrev free_queue : ℕ → Put
free_queue m = record { now = 100 + m; full = false }

run-stream_example :
    run free_queue 0 (idle [] []) (stream ((first_lines, 212) ∷ (second_lines, 51) ∷ []))
    ≡ (packets free_queue 0 ((first_lines, 212) ∷ (second_lines, 51) ∷ []), idle [] [])
run-stream_example =
    run-stream free_queue 0 ((first_lines, 212) ∷ (second_lines, 51) ∷ []) (λ m. refl)
      (
        ((refl, refl, tt), refl, (refl, refl, (refl, refl, tt)), tt),
        omega arith,
        omega arith,
        (
          (
            (refl, refl, tt),
            refl,
            (refl, refl, tt),
            ((refl, refl, tt), refl, (refl, refl, (refl, refl, tt)), tt),
          ),
          omega arith,
          omega arith,
          tt,
        ),
      )
