-- ===== src/AddressPool/Addresses.antt =====
-- The addresses that a pool gives.
use navigation_server.Base.{
  ℕ, zero, suc, ◌+◌, ◌-◌, ◌≤◌, ◌<◌, ◌≡◌, refl, ap, ap₂, ◌∙◌, ◌⊎◌, false, List, arith, contains,
  drop, inl, inr, Bool-cases,
}
use navigation_server.AddressPool.{ApplicationPool, first_free, get_new_address, range_from}

-- What is left of a range after its first numbers.
drop-range_from : (i a n : ℕ) → drop i (range_from a n) ≡ range_from (a + i) (n - i)
drop-range_from zero a n = ap₂ (λ (b m : ℕ). range_from b m) (omega arith) (omega arith)
drop-range_from (suc i) a zero = ap (λ (m : ℕ). range_from (a + suc i) m) (none_left i)
  where
    none_left : (k : ℕ) → 0 ≡ 0 - suc k
    none_left k = omega arith
drop-range_from (suc i) a (suc n) =
    drop-range_from i (a + 1) n ∙ ap₂ (λ (b m : ℕ). range_from b m) (next a i) (less n i)
  where
    next : (b k : ℕ) → b + 1 + k ≡ b + suc k
    next b k = omega arith

    less : (m k : ℕ) → m - k ≡ suc m - suc k
    less m k = omega arith

-- The number that is found in a range is not in use, or the range is at its end.
first_free-range_from :
    (network : List ℕ) (a n : ℕ)
    → ((contains network (first_free network (range_from a n)).0 ≡ false)
        × ((first_free network (range_from a n)).0 + 1
            ≡ a + (first_free network (range_from a n)).1)
        × (0 < (first_free network (range_from a n)).1))
      ⊎ (((first_free network (range_from a n)).0 ≡ 254)
          × ((first_free network (range_from a n)).1 ≡ n))
unfolding first_free
first_free-range_from network a zero = inr (refl, refl)
first_free-range_from network a (suc n) = elim (Bool-cases (contains network a)) [
  | inl used ↦ elim (first_free-range_from network (a + 1) n) [
    | inl (free, place, taken) ↦
        inl (rw used free, rw used (omega (arith, place)), rw used (omega arith))
    | inr (none_left, all) ↦ inr (rw used none_left, rw used (omega (arith, all)))
  ]
  | inr free ↦ inl (rw (free, free), rw free refl, rw free (omega arith))
]

-- A pool over the numbers from `start` on gives an address that no one on the network has, and its
-- index moves behind it, so that no address is given twice; or it gives 254 and is at its end.
pub get_new_address-fresh :
    (network : List ℕ) (p : ApplicationPool) (start n : ℕ)
    → p.address_pool ≡ range_from start n
    → p.ap_index ≤ n
    → ((contains network (get_new_address network p).0 ≡ false)
        × ((get_new_address network p).0 + 1 ≡ start + (get_new_address network p).1.ap_index)
        × (p.ap_index < (get_new_address network p).1.ap_index))
      ⊎ (((get_new_address network p).0 ≡ 254) × ((get_new_address network p).1.ap_index ≡ n))
unfolding get_new_address
get_new_address-fresh network p start n range inside =
    let left : drop p.ap_index p.address_pool ≡ range_from (start + p.ap_index) (n - p.ap_index) =
      ap (λ (l : List ℕ). drop p.ap_index l) range ∙ drop-range_from p.ap_index start n in
    rw left (elim (first_free-range_from network (start + p.ap_index) (n - p.ap_index)) [
      | inl (free, place, taken) ↦ inl (free, omega (arith, place), omega (arith, taken))
      | inr (none_left, all) ↦ inr (none_left, omega (arith, all, inside))
    ])
