-- ===== src/Framing/Splits.antt =====
-- A frame that several buffers share.
use navigation_server.Base.{
  ℕ, zero, suc, ◌+◌, ◌-◌, ◌<◌, ◌≡◌, refl, ap, ◌∙◌, Bool, true, false, List, [], ◌∷◌, ◌++◌, length,
  length-append, arith, append-nil,
}
use navigation_server.Framing.{Reader, is_empty, keep, cut_within, cut, cut_all}
use navigation_server.Framing.Chunks.{
  IsPlain, find-plain, find-none, last-plain, skip-plain, cut-frame, cut-part,
}
use navigation_server.Framing.Streams.{
  AllFrames, lines, idle, length-lines, find-cr, last-cr, without-cr, find-lf, cut-lines,
  cut-lines_part,
}

abbrev pub partial : List ℕ → Reader
partial a = record { part = true; part_buf = a }

abbrev pub AllPlain : List (List ℕ) → Type 0
AllPlain [] = Unit
AllPlain (m ∷ ms) = IsPlain m × AllPlain ms

-- The parts of a frame, put together.
abbrev pub gathered : List ℕ → List (List ℕ) → List ℕ
gathered a [] = a
gathered a (m ∷ ms) = gathered (a ++ m) ms

full_append : (a b : List ℕ) → is_empty a ≡ false → is_empty (a ++ b) ≡ false
full_append [] b h = ground arith
full_append (x ∷ a) b h = refl

positive : (a : List ℕ) → is_empty a ≡ false → 0 < length a
positive [] h = ground arith
positive (x ∷ a) h = omega arith

module _ (is_fatal : List ℕ → Bool) (calm : (f : List ℕ) → is_fatal f ≡ false) where
  -- The rest of a frame in front of a buffer.
  cut-rest :
      (fuel : ℕ) (a b rest : List ℕ)
      → IsPlain b
      → is_empty a ≡ false
      → cut_within (suc fuel) is_fatal (partial a) (b ++ 13 ∷ 10 ∷ rest)
        ≡ let after = cut_within fuel is_fatal (idle a) rest in ((a ++ b) ∷ after.0, after.1)
  cut-rest fuel a b rest plain full =
      cut-frame is_fatal calm fuel (partial a) b rest (find-plain b rest plain)
        (rw (skip-plain b plain) (full_append a b full))
      ∙ rw (skip-plain b plain) refl

  -- A buffer inside a frame.
  cut-middle :
      (a m : List ℕ)
      → IsPlain m
      → cut_within (length m) is_fatal (partial a) m ≡ ([], partial (a ++ m))
  unfolding cut_within keep
  cut-middle a [] plain = rw (append-nil a) refl
  cut-middle a (c ∷ m) plain =
      rw (find-none (c ∷ m) plain, cut_within) (rw (last-plain (c ∷ m) plain) refl)

  -- The last buffer of a frame, with other frames behind it.
  cut-last :
      (gs : List (List ℕ)) (a b : List ℕ)
      → AllFrames gs
      → is_empty a ≡ false
      → IsPlain b
      → cut_within (length (b ++ 13 ∷ 10 ∷ lines gs)) is_fatal (partial a) (b ++ 13 ∷ 10 ∷ lines gs)
        ≡ ((a ++ b) ∷ gs, idle a)
  cut-last gs a b frames full plain =
      let total = length-append b (13 ∷ 10 ∷ lines gs) in
      let fuel = length b + 1 + length (lines gs) in
      let count : length (b ++ 13 ∷ 10 ∷ lines gs) ≡ suc fuel = omega (arith, total) in
      let others = length-lines gs in
      ap (λ (n : ℕ). cut_within n is_fatal (partial a) (b ++ 13 ∷ 10 ∷ lines gs)) count
      ∙ cut-rest fuel a b (lines gs) plain full
      ∙ rw (cut-lines is_fatal calm fuel a gs frames (omega (arith, others))) refl

  cut_all-parts :
      (gs ms : List (List ℕ)) (a b : List ℕ)
      → AllFrames gs
      → AllPlain ms
      → is_empty a ≡ false
      → IsPlain b
      → cut_all is_fatal (partial a) (ms ++ (b ++ 13 ∷ 10 ∷ lines gs) ∷ [])
        ≡ ((gathered a ms ++ b) ∷ gs, idle (gathered a ms))
  unfolding cut_all cut
  cut_all-parts gs [] a b frames plain_m full plain_b =
      rw (cut-last gs a b frames full plain_b) (rw (append-nil gs) refl)
  cut_all-parts gs (m ∷ ms) a b frames plain_m full plain_b =
      rw (cut-middle a m plain_m.0)
        (rw (cut_all-parts gs ms (a ++ m) b frames plain_m.1 (full_append a m full) plain_b) refl)

  -- No frame is fatal and each is not empty and free of CR and LF. Then a stream of frames that comes
  -- in two or more buffers, the cuts all inside one frame or between it and its separator,
  -- gives exactly the frames in order, and nothing is kept as a part.
  pub cut_all-split :
      (p : List ℕ) (fs gs ms : List (List ℕ)) (a b : List ℕ)
      → AllFrames fs
      → AllFrames gs
      → AllPlain ms
      → IsPlain a
      → is_empty a ≡ false
      → IsPlain b
      → cut_all is_fatal (idle p) ((lines fs ++ a) ∷ (ms ++ (b ++ 13 ∷ 10 ∷ lines gs) ∷ []))
        ≡ (fs ++ (gathered a ms ++ b) ∷ gs, idle (gathered a ms))
  unfolding cut_all cut
  cut_all-split p fs gs ms a b frames_f frames_g plain_m plain_a full_a plain_b =
      let size = length-append (lines fs) a in
      let some_a = positive a full_a in
      let many = length-lines fs in
      let first =
        cut-lines_part is_fatal calm (length (lines fs ++ a)) p fs a frames_f plain_a full_a
          (omega (arith, size, some_a, many)) in
      rw first (rw (cut_all-parts gs ms a b frames_g plain_m full_a plain_b) refl)

  keep-cr :
      (fuel : ℕ) (a b : List ℕ)
      → IsPlain b
      → cut_within (suc fuel) is_fatal (partial a) (b ++ 13 ∷ []) ≡ ([], partial (a ++ b))
  unfolding cut_within keep
  keep-cr fuel a [] plain = refl
  keep-cr fuel a (c ∷ b) plain =
      rw (find-cr (c ∷ b) plain, cut_within) (rw (last-cr (c ∷ b), without-cr (c ∷ b)) refl)

  glued :
      (fuel : ℕ) (a g : List ℕ)
      → IsPlain g
      → is_empty a ≡ false
      → cut_within (suc fuel) is_fatal (partial a) (10 ∷ (g ++ 13 ∷ 10 ∷ []))
        ≡ let after = cut_within fuel is_fatal (idle a) [] in ((a ++ g) ∷ after.0, after.1)
  glued fuel a g plain full =
      cut-frame is_fatal calm fuel (partial a) (10 ∷ g) [] (find-lf g [] plain)
        (full_append a g full)

  nothing_left : (fuel : ℕ) (r : Reader) → cut_within fuel is_fatal r [] ≡ ([], r)
  unfolding cut_within
  nothing_left zero r = refl
  nothing_left (suc fuel) r = refl

  -- When a frame that began in one buffer ends in the next one with a separator of which only CR is in
  -- that buffer, it is put together with the frame behind it: of two frames comes one.
  pub cut_all-glued :
      (p a b g : List ℕ)
      → IsPlain a
      → is_empty a ≡ false
      → IsPlain b
      → IsPlain g
      → (cut_all is_fatal (idle p) (a ∷ (b ++ 13 ∷ []) ∷ (10 ∷ (g ++ 13 ∷ 10 ∷ [])) ∷ [])).0
        ≡ ((a ++ b) ++ g) ∷ []
  unfolding cut_all cut
  cut_all-glued p a b g plain_a full_a plain_b plain_g =
      let some_a = positive a full_a in
      let size = length-append b (13 ∷ []) in
      let one : length a ≡ suc (length a - 1) = omega (arith, some_a) in
      let two : length (b ++ 13 ∷ []) ≡ suc (length b) = omega (arith, size) in
      let first : cut_within (length a) is_fatal (idle p) a ≡ ([], partial a) =
        ap (λ (n : ℕ). cut_within n is_fatal (idle p) a) one
        ∙ cut-part is_fatal calm (length a - 1) p a plain_a full_a in
      let second : cut_within (length (b ++ 13 ∷ [])) is_fatal (partial a) (b ++ 13 ∷ [])
          ≡ ([], partial (a ++ b)) =
        ap (λ (n : ℕ). cut_within n is_fatal (partial a) (b ++ 13 ∷ [])) two
        ∙ keep-cr (length b) a b plain_b in
      let third = glued (length (g ++ 13 ∷ 10 ∷ [])) (a ++ b) g plain_g (full_append a b full_a) in
      rw first
        (rw second (rw third (rw (nothing_left (length (g ++ 13 ∷ 10 ∷ [])) (idle (a ++ b))) refl)))
