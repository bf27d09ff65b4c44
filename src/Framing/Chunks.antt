-- ===== src/Framing/Chunks.antt =====
-- Frames that come in buffers, however these are cut.
use navigation_server.Base.{
  ℕ, suc, ◌+◌, ◌≡◌, refl, ap, ◌∙◌, Bool, true, false, none, some, List, [], ◌∷◌, ◌++◌, ◌==◌, length,
  drop, arith, take_front, drop_front,
}
use navigation_server.Framing.{
  in_separator, find_separator, last_in_separator, skip_first, Reader, joined, is_empty, keep,
  emitted, cut_within,
}

abbrev pub IsPlain : List ℕ → Type 0
IsPlain [] = Unit
IsPlain (c ∷ cs) = (in_separator c ≡ false) × IsPlain cs

pub plain_byte : (c : ℕ) → in_separator c ≡ false → ((c == 13) ≡ false) × ((c == 10) ≡ false)
plain_byte c h = ground arith

pub find-plain :
    (f rest : List ℕ) → IsPlain f → find_separator (f ++ 13 ∷ 10 ∷ rest) ≡ some (length f)
unfolding find_separator
find-plain [] rest h = refl
find-plain (c ∷ []) rest (first, others) = rw (plain_byte c first).0 refl
find-plain (c ∷ d ∷ f) rest (first, others) =
    rw ((plain_byte c first).0, find-plain (d ∷ f) rest others)
      (ap (λ (n : ℕ). some n) (omega arith))

pub find-none : (f : List ℕ) → IsPlain f → find_separator f ≡ none
unfolding find_separator
find-none [] h = refl
find-none (c ∷ []) h = refl
find-none (c ∷ d ∷ f) (first, others) = rw ((plain_byte c first).0, find-none (d ∷ f) others) refl

pub last-plain : (f : List ℕ) → IsPlain f → last_in_separator f ≡ false
last-plain [] h = refl
last-plain (c ∷ []) h = h.0
last-plain (c ∷ d ∷ f) h = last-plain (d ∷ f) h.1

pub skip-plain : (f : List ℕ) → IsPlain f → skip_first f ≡ f
skip-plain [] h = refl
skip-plain (c ∷ f) h = rw h.0 refl

skip-cons : (f : List ℕ) (c : ℕ) → is_empty (f ++ c ∷ []) ≡ false
skip-cons [] c = refl
skip-cons (x ∷ f) c = refl

-- One frame up to its separator, with what is behind it.
module _ (is_fatal : List ℕ → Bool) (calm : (f : List ℕ) → is_fatal f ≡ false) where
  emitted-full :
      (frame : List ℕ) (closed : Reader) (rest : List (List ℕ) × Reader)
      → is_empty frame ≡ false
      → emitted is_fatal frame closed rest ≡ (frame ∷ rest.0, rest.1)
  emitted-full frame closed rest full = rw (full, calm frame) refl

  pub cut-frame :
      (fuel : ℕ) (r : Reader) (f rest : List ℕ)
      → find_separator (f ++ 13 ∷ 10 ∷ rest) ≡ some (length f)
      → is_empty (joined r f) ≡ false
      → cut_within (suc fuel) is_fatal r (f ++ 13 ∷ 10 ∷ rest)
        ≡ let after = cut_within fuel is_fatal (record r { part = false }) rest in
          (joined r f ∷ after.0, after.1)
  unfolding cut_within
  cut-frame fuel r [] rest found full =
      emitted-full (joined r []) (record r { part = false })
        (cut_within fuel is_fatal (record r { part = false }) rest) full
  cut-frame fuel r (c ∷ f) rest found full =
      rw (found, cut_within)
        (ap
            (λ (text : List ℕ).
              emitted is_fatal (joined r text) (record r { part = false })
                (cut_within fuel is_fatal (record r { part = false })
                  (drop (length (c ∷ f) + 2) ((c ∷ f) ++ 13 ∷ 10 ∷ rest))))
            (take_front (length (c ∷ f)) (c ∷ f) (13 ∷ 10 ∷ rest) refl)
          ∙ ap
              (λ (text : List ℕ).
                emitted is_fatal (joined r (c ∷ f)) (record r { part = false })
                  (cut_within fuel is_fatal (record r { part = false }) text))
              (drop_front (length (c ∷ f)) 2 (c ∷ f) (13 ∷ 10 ∷ rest) refl)
          ∙ emitted-full (joined r (c ∷ f)) (record r { part = false })
              (cut_within fuel is_fatal (record r { part = false }) rest) full)

  -- A part of a frame at the end of a buffer.
  pub cut-part :
      (fuel : ℕ) (p : List ℕ) (a : List ℕ)
      → IsPlain a
      → is_empty a ≡ false
      → cut_within (suc fuel) is_fatal (record { part = false; part_buf = p }) a
        ≡ ([], record { part = true; part_buf = a })
  unfolding cut_within keep
  cut-part fuel p [] plain full = ground arith
  cut-part fuel p (c ∷ a) plain full =
      rw (find-none (c ∷ a) plain, cut_within)
        (rw (last-plain (c ∷ a) plain, skip-plain (c ∷ a) plain) refl)
