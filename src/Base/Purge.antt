-- ===== src/Base/Purge.antt =====
-- Dictionaries with each key once, and the removal of the entries that a test picks.
use Prim.Native.Nat.{ℕ}
use mathlib.Core.Path.{◌≡◌, refl, ◌∙◌}
use mathlib.Core.Logic.{inl, inr}
use mathlib.Core.Bool.{Bool, false}
use mathlib.Core.List.{List, [], ◌∷◌}
use mathlib.Core.Option.{Option, none, some}
use native.Mathlib.Omega.{arith}
use navigation_server.Base.Tests.{◌==◌, if◌then◌else◌, Bool-cases}
use navigation_server.Base.Lists.{contains}
use navigation_server.Base.Dicts.{Dict, get, put, remove, get-put, get-remove}

module _ {ℓ} {V : Type ℓ} where
  -- No key twice.
  abbrev pub IsDistinct : Dict V → Type ℓ
  IsDistinct [] = Unit
  IsDistinct ((k, v) ∷ d) = (get d k ≡ none) × IsDistinct d

  -- The keys of the entries that a test picks, and `del` of each of them.
  unfoldable pub keys_where : (V → Bool) → Dict V → List ℕ
  keys_where test [] = []
  keys_where test ((k, v) ∷ d) =
      let others = keys_where test d in if test v then k ∷ others else others

  unfoldable pub remove_keys : Dict V → List ℕ → Dict V
  remove_keys d [] = d
  remove_keys d (k ∷ keys) = remove_keys (remove d k) keys

  abbrev pub unless : (V → Bool) → Option V → Option V
  unless test none = none
  unless test (some v) = if test v then none else some v

module _ {ℓ} {V : Type ℓ} where
  pub IsDistinct-put : (d : Dict V) (k : ℕ) (v : V) → IsDistinct d → IsDistinct (put d k v)
  unfolding put get
  IsDistinct-put [] k v t = (refl, tt)
  IsDistinct-put ((j, r) ∷ d) k v t = elim (Bool-cases (j == k)) [
    | inl same ↦ rw same t
    | inr other ↦ rw other (ground (arith, get-put d k j v, t.0), IsDistinct-put d k v t.1)
  ]

  pub IsDistinct-remove : (d : Dict V) (k : ℕ) → IsDistinct d → IsDistinct (remove d k)
  unfolding remove
  IsDistinct-remove [] k t = tt
  IsDistinct-remove ((j, r) ∷ d) k t = elim (Bool-cases (j == k)) [
    | inl same ↦ rw same (IsDistinct-remove d k t.1)
    | inr other ↦ rw other (ground (arith, get-remove d k j, t.0), IsDistinct-remove d k t.1)
  ]

  pub IsDistinct-remove_keys :
      (d : Dict V) (keys : List ℕ) → IsDistinct d → IsDistinct (remove_keys d keys)
  unfolding remove_keys
  IsDistinct-remove_keys d [] t = t
  IsDistinct-remove_keys d (k ∷ keys) t =
      IsDistinct-remove_keys (remove d k) keys (IsDistinct-remove d k t)

  get-remove_keys :
      (d : Dict V) (keys : List ℕ) (k : ℕ)
      → get (remove_keys d keys) k ≡ (if contains keys k then none else get d k)
  unfolding remove_keys
  get-remove_keys d [] k = refl
  get-remove_keys d (j ∷ keys) k =
      ground (arith, get-remove_keys (remove d j) keys k, get-remove d j k)

  absent-keys_where :
      (test : V → Bool) (d : Dict V) (k : ℕ)
      → get d k ≡ none
      → contains (keys_where test d) k ≡ false
  unfolding keys_where get
  absent-keys_where test [] k absent = refl
  absent-keys_where test ((j, v) ∷ d) k absent =
      let other : (j == k) ≡ false = ground arith in
      let rest = absent-keys_where test d k (ground arith) in
      elim (Bool-cases (test v)) [
        | inl picked ↦ rw picked (ground (arith, rest))
        | inr left ↦ rw left rest
      ]

  contains-keys_where :
      (test : V → Bool) (d : Dict V) (k : ℕ)
      → IsDistinct d
      → (if contains (keys_where test d) k then none else get d k) ≡ unless test (get d k)
  unfolding keys_where get
  contains-keys_where test [] k t = refl
  contains-keys_where test ((j, v) ∷ d) k t = elim (Bool-cases (test v)) [
    | inl picked ↦
        rw picked (ground (arith, contains-keys_where test d k, absent-keys_where test d k, picked))
    | inr left ↦
        rw left (ground (arith, contains-keys_where test d k, absent-keys_where test d k, left))
  ]

  -- What the test does not pick stays, and nothing else.
  pub get-remove_where :
      (test : V → Bool) (d : Dict V) (k : ℕ)
      → IsDistinct d
      → get (remove_keys d (keys_where test d)) k ≡ unless test (get d k)
  get-remove_where test d k t =
      get-remove_keys d (keys_where test d) k ∙ contains-keys_where test d k t
