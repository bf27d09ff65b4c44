-- ===== src/Framing/Tests.antt =====
-- The theorems about frames in several buffers, at concrete inputs.
use navigation_server.Base.{ℕ, ◌≡◌, refl, false, List, [], ◌∷◌, ◌++◌}
use navigation_server.Framing.{cut_all}
use navigation_server.Framing.Streams.{lines, idle}
use navigation_server.Framing.Splits.{cut_all-split, cut_all-glued}

-- Two frames, and a third one that the buffers share.
abbrev frames : List (List ℕ)
frames = (36 ∷ 65 ∷ []) ∷ (36 ∷ 66 ∷ []) ∷ []

cut_all-split_example :
    cut_all
      (λ f. false)
      (idle [])
      ((lines frames ++ 36 ∷ []) ∷ (67 ∷ []) ∷ (68 ∷ 13 ∷ 10 ∷ lines frames) ∷ [])
    ≡ (frames ++ (36 ∷ 67 ∷ 68 ∷ []) ∷ frames, idle (36 ∷ 67 ∷ []))
cut_all-split_example =
    cut_all-split (λ f. false) (λ f. refl) [] frames frames ((67 ∷ []) ∷ []) (36 ∷ []) (68 ∷ [])
      ((refl, (refl, tt)), refl, ((refl, (refl, tt)), refl, tt))
      ((refl, (refl, tt)), refl, ((refl, (refl, tt)), refl, tt)) ((refl, tt), tt) (refl, tt) refl
      (refl, tt)

-- What comes of a frame A whose CR ends a buffer, and a frame B.
cut_all-glued_example :
    (cut_all
      (λ f. false)
      (idle [])
      ((36 ∷ []) ∷ (65 ∷ 13 ∷ []) ∷ (10 ∷ 36 ∷ 66 ∷ 13 ∷ 10 ∷ []) ∷ [])).0
    ≡ (36 ∷ 65 ∷ 36 ∷ 66 ∷ []) ∷ []
cut_all-glued_example =
    cut_all-glued (λ f. false) (λ f. refl) [] (36 ∷ []) (65 ∷ []) (36 ∷ 66 ∷ []) (refl, tt) refl
      (refl, tt) (refl, (refl, tt))
