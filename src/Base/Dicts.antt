-- ===== src/Base/Dicts.antt =====
-- A Python `dict` with integer keys: an association list in order of insertion.
use Prim.Native.Nat.{ℕ}
use mathlib.Core.Path.{◌≡◌, refl}
use mathlib.Core.Logic.{◌≢◌}
use mathlib.Core.List.{List, [], ◌∷◌}
use mathlib.Core.Option.{Option, none, some}
use native.Mathlib.Omega.{arith}
use navigation_server.Base.Tests.{◌==◌, if◌then◌else◌}

abbrev pub Dict {ℓ} : Type ℓ → Type ℓ
Dict V = List (ℕ × V)

module _ {ℓ} {V : Type ℓ} where
  -- d.get(k)
  unfoldable pub get : Dict V → ℕ → Option V
  get [] k = none
  get ((j, v) ∷ d) k = if j == k then some v else get d k

  -- d[k] = v keeps the place of an old key, and a new key comes last.
  unfoldable pub put : Dict V → ℕ → V → Dict V
  put [] k v = (k, v) ∷ []
  put ((j, w) ∷ d) k v = if j == k then (j, v) ∷ d else (j, w) ∷ put d k v

  -- del d[k], for a key that the caller has found
  unfoldable pub remove : Dict V → ℕ → Dict V
  remove [] k = []
  remove ((j, w) ∷ d) k = let rest = remove d k in if j == k then rest else (j, w) ∷ rest

module _ {ℓ} {V : Type ℓ} where
  pub get-put :
      (d : Dict V) (k j : ℕ) (v : V) → get (put d k v) j ≡ (if k == j then some v else get d j)
  unfolding get put remove
  get-put [] k j v = refl
  get-put ((i, w) ∷ d) k j v = ground (arith, get-put d k j v)

  pub get-remove : (d : Dict V) (k j : ℕ) → get (remove d k) j ≡ (if k == j then none else get d j)
  unfolding get put remove
  get-remove [] k j = ground arith
  get-remove ((i, w) ∷ d) k j = ground (arith, get-remove d k j)

  pub get-put_self : (d : Dict V) (k : ℕ) (v : V) → get (put d k v) k ≡ some v
  get-put_self d k v = ground (arith, get-put d k k v)

  pub get-remove_self : (d : Dict V) (k : ℕ) → get (remove d k) k ≡ none
  get-remove_self d k = ground (arith, get-remove d k k)

  pub get-put_ne : (d : Dict V) (k j : ℕ) (v : V) → k ≢ j → get (put d k v) j ≡ get d j
  get-put_ne d k j v ne = ground (arith, get-put d k j v)

  -- A later write to the same key covers the earlier one.
  pub put-put : (d : Dict V) (k : ℕ) (v w : V) → put (put d k v) k w ≡ put d k w
  unfolding get put remove
  put-put [] k v w = ground arith
  put-put ((i, u) ∷ d) k v w = ground (arith, put-put d k v w)

  pub remove_absent : (d : Dict V) (k : ℕ) → get d k ≡ none → remove d k ≡ d
  unfolding get put remove
  remove_absent [] k h = refl
  remove_absent ((i, u) ∷ d) k h = ground (arith, remove_absent d k)

  -- A key that was not there leaves no trace once it is written and deleted.
  pub remove-put : (d : Dict V) (k : ℕ) (v : V) → get d k ≡ none → remove (put d k v) k ≡ d
  unfolding get put remove
  remove-put [] k v h = ground arith
  remove-put ((i, u) ∷ d) k v h = ground (arith, remove-put d k v)
