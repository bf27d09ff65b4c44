-- ===== src/Framing/Streams.antt =====
-- Streams of frames in several buffers.
use navigation_server.Base.{
  ℕ, zero, suc, ◌≤◌, ◌<◌, ◌≡◌, refl, ap, ◌∙◌, Bool, true, false, none, some, List, [], ◌∷◌, ◌++◌,
  length, length-append, arith, append_assoc,
}
use navigation_server.Framing.{
  find_separator, last_in_separator, without_last, Reader, is_empty, cut_within,
}
use navigation_server.Framing.Chunks.{
  IsPlain, plain_byte, find-plain, skip-plain, cut-frame, cut-part,
}

abbrev pub AllFrames : List (List ℕ) → Type 0
AllFrames [] = Unit
AllFrames (f ∷ fs) = IsPlain f × (is_empty f ≡ false) × AllFrames fs

abbrev pub lines : List (List ℕ) → List ℕ
lines [] = []
lines (f ∷ fs) = f ++ 13 ∷ 10 ∷ lines fs

abbrev pub idle : List ℕ → Reader
idle p = record { part = false; part_buf = p }

pub length-lines : (fs : List (List ℕ)) → length fs ≤ length (lines fs)
length-lines [] = omega arith
length-lines (f ∷ fs) =
    let all = length-append f (13 ∷ 10 ∷ lines fs) in
    let rest = length-lines fs in omega (arith, all, rest)

pub find-cr : (b : List ℕ) → IsPlain b → find_separator (b ++ 13 ∷ []) ≡ none
unfolding find_separator
find-cr [] h = refl
find-cr (c ∷ []) h = rw (plain_byte c h.0).0 refl
find-cr (c ∷ d ∷ b) h = rw ((plain_byte c h.0).0, find-cr (d ∷ b) h.1) refl

pub last-cr : (b : List ℕ) → last_in_separator (b ++ 13 ∷ []) ≡ true
last-cr [] = refl
last-cr (c ∷ []) = refl
last-cr (c ∷ d ∷ b) = last-cr (d ∷ b)

pub without-cr : (b : List ℕ) → without_last (b ++ 13 ∷ []) ≡ b
without-cr [] = refl
without-cr (c ∷ []) = refl
without-cr (c ∷ d ∷ b) = ap (λ (l : List ℕ). c ∷ l) (without-cr (d ∷ b))

pub find-lf :
    (g rest : List ℕ)
    → IsPlain g
    → find_separator (10 ∷ (g ++ 13 ∷ 10 ∷ rest)) ≡ some (suc (length g))
unfolding find_separator
find-lf [] rest h = refl
find-lf (c ∷ g) rest h = rw (find-plain (c ∷ g) rest h) (ap (λ (n : ℕ). some n) (omega arith))

module _ (is_fatal : List ℕ → Bool) (calm : (f : List ℕ) → is_fatal f ≡ false) where
  pub cut-lines :
      (fuel : ℕ) (p : List ℕ) (fs : List (List ℕ))
      → AllFrames fs
      → length fs ≤ fuel
      → cut_within fuel is_fatal (idle p) (lines fs) ≡ (fs, idle p)
  unfolding cut_within
  cut-lines zero p [] frames enough = refl
  cut-lines (suc fuel) p [] frames enough = refl
  cut-lines zero p (f ∷ fs) frames enough = absurd (omega (arith, enough))
  cut-lines (suc fuel) p (f ∷ fs) (plain, full, others) enough =
      cut-frame is_fatal calm fuel (idle p) f (lines fs) (find-plain f (lines fs) plain)
        (rw (skip-plain f plain) full)
      ∙ rw (skip-plain f plain, cut-lines fuel p fs others (omega (arith, enough))) refl

  pub cut-lines_part :
      (fuel : ℕ) (p : List ℕ) (fs : List (List ℕ)) (a : List ℕ)
      → AllFrames fs
      → IsPlain a
      → is_empty a ≡ false
      → length fs < fuel
      → cut_within fuel is_fatal (idle p) (lines fs ++ a)
        ≡ (fs, record { part = true; part_buf = a })
  cut-lines_part zero p fs a frames plain full enough = absurd (omega (arith, enough))
  cut-lines_part (suc fuel) p [] a frames plain full enough =
      cut-part is_fatal calm fuel p a plain full
  cut-lines_part (suc fuel) p (f ∷ fs) a (plain_f, full_f, others) plain full enough =
      rw append_assoc (
        cut-frame is_fatal calm fuel (idle p) f (lines fs ++ a)
          (find-plain f (lines fs ++ a) plain_f) (rw (skip-plain f plain_f) full_f)
        ∙ rw
            (
              skip-plain f plain_f,
              cut-lines_part fuel p fs a others plain full (omega (arith, enough)),
            )
            refl)
