-- ===== src/Base/Slices.antt =====
-- Laws of the slices of a byte array, and the write of one element.
use Prim.Native.Nat.{ℕ, zero, suc, ◌+◌, ◌-◌, ◌≤◌, ◌<◌}
use mathlib.Core.Path.{◌≡◌, refl, ap, sym, ◌∙◌}
use mathlib.Core.List.{List, [], ◌∷◌, ◌++◌}
use native.Mathlib.Omega.{arith}
use navigation_server.Base.Lists.{length, take, drop, replicate, take_all}

module _ {ℓ} {A : Type ℓ} where
  pub drop-append : (m : ℕ) (xs ys : List A) → drop (length xs + m) (xs ++ ys) ≡ drop m ys
  drop-append m [] ys = ap (λ (k : ℕ). drop k ys) (omega arith)
  drop-append m (x ∷ xs) ys =
      ap (λ (k : ℕ). drop k (x ∷ (xs ++ ys))) (suc_first (length xs) m) ∙ drop-append m xs ys
    where
      suc_first : (a b : ℕ) → suc a + b ≡ suc (a + b)
      suc_first a b = omega arith

  pub drop-append_left :
      (n : ℕ) (xs ys : List A) → n ≤ length xs → drop n (xs ++ ys) ≡ drop n xs ++ ys
  drop-append_left zero xs ys h = refl
  drop-append_left (suc n) [] ys h = absurd (omega arith)
  drop-append_left (suc n) (x ∷ xs) ys h = drop-append_left n xs ys (omega arith)

  pub drop-replicate : (m n : ℕ) (a : A) → drop m (replicate n a) ≡ replicate (n - m) a
  drop-replicate zero n a = ap (λ (k : ℕ). replicate k a) (omega arith)
  drop-replicate (suc m) zero a = ap (λ (k : ℕ). replicate k a) (none_left m)
    where
      none_left : (k : ℕ) → 0 ≡ 0 - suc k
      none_left k = omega arith
  drop-replicate (suc m) (suc n) a =
      drop-replicate m n a ∙ ap (λ (k : ℕ). replicate k a) (one_less m n)
    where
      one_less : (i j : ℕ) → j - i ≡ suc j - suc i
      one_less i j = omega arith

  pub drop-take : (m n : ℕ) (xs : List A) → drop m (take n xs) ≡ take (n - m) (drop m xs)
  drop-take zero n xs = ap (λ (k : ℕ). take k xs) (omega arith)
  drop-take (suc m) zero xs = ap (λ (k : ℕ). take k (drop (suc m) xs)) (none_left m)
    where
      none_left : (k : ℕ) → 0 ≡ 0 - suc k
      none_left k = omega arith
  drop-take (suc m) (suc n) [] = sym (take_all (suc n - suc m) [] (omega arith))
  drop-take (suc m) (suc n) (x ∷ xs) =
      drop-take m n xs ∙ ap (λ (k : ℕ). take k (drop m xs)) (one_less m n)
    where
      one_less : (i j : ℕ) → j - i ≡ suc j - suc i
      one_less i j = omega arith

  pub take-take : (m n : ℕ) (xs : List A) → m ≤ n → take m (take n xs) ≡ take m xs
  take-take zero n xs h = refl
  take-take (suc m) zero xs h = absurd (omega arith)
  take-take (suc m) (suc n) [] h = refl
  take-take (suc m) (suc n) (x ∷ xs) h = ap (λ l. x ∷ l) (take-take m n xs (omega arith))

  pub take_front : (n : ℕ) (xs ys : List A) → length xs ≡ n → take n (xs ++ ys) ≡ xs
  take_front zero [] ys h = refl
  take_front (suc n) [] ys h = absurd (omega arith)
  take_front zero (x ∷ xs) ys h = absurd (omega arith)
  take_front (suc n) (x ∷ xs) ys h = ap (λ l. x ∷ l) (take_front n xs ys (omega arith))

  pub drop_front : (n m : ℕ) (xs ys : List A) → length xs ≡ n → drop (n + m) (xs ++ ys) ≡ drop m ys
  drop_front n m xs ys h = ap (λ (k : ℕ). drop (k + m) (xs ++ ys)) (sym h) ∙ drop-append m xs ys

  -- b[i] = v
  unfoldable pub set : List A → ℕ → A → List A
  set [] i v = []
  set (x ∷ xs) zero v = v ∷ xs
  set (x ∷ xs) (suc i) v = x ∷ set xs i v

module _ {ℓ} {A : Type ℓ} where
  pub take-set_beyond : (n i : ℕ) (xs : List A) (v : A) → n ≤ i → take n (set xs i v) ≡ take n xs
  unfolding set
  take-set_beyond zero i xs v h = refl
  take-set_beyond (suc n) i [] v h = refl
  take-set_beyond (suc n) zero (x ∷ xs) v h = absurd (omega arith)
  take-set_beyond (suc n) (suc i) (x ∷ xs) v h =
      ap (λ l. x ∷ l) (take-set_beyond n i xs v (omega arith))

  pub take-set_last :
      (m : ℕ) (xs : List A) (v : A)
      → m < length xs
      → take (suc m) (set xs m v) ≡ take m xs ++ v ∷ []
  unfolding set
  take-set_last m [] v h = absurd (omega arith)
  take-set_last zero (x ∷ xs) v h = refl
  take-set_last (suc m) (x ∷ xs) v h = ap (λ l. x ∷ l) (take-set_last m xs v (omega arith))

  pub length-set : (xs : List A) (i : ℕ) (v : A) → length (set xs i v) ≡ length xs
  unfolding set
  length-set [] i v = refl
  length-set (x ∷ xs) zero v = refl
  length-set (x ∷ xs) (suc i) v = ap suc (length-set xs i v)
