-- ===== src/AddressPool/Tests.antt =====
-- The theorem on addresses at a concrete pool.
use navigation_server.Base.{◌+◌, ◌<◌, ◌≡◌, ◌⊎◌, refl, false, [], ◌∷◌, arith, contains}
use navigation_server.AddressPool.{new_pool, get_new_address}
use navigation_server.AddressPool.Addresses.{get_new_address-fresh}

-- The first address is in use.
second : (get_new_address (128 ∷ []) (new_pool 999 0 8 128)).0 ≡ 129
unfolding get_new_address new_pool
second = refl

get_new_address-fresh_example :
    ((contains (128 ∷ []) (get_new_address (128 ∷ []) (new_pool 999 0 8 128)).0 ≡ false)
      × ((get_new_address (128 ∷ []) (new_pool 999 0 8 128)).0 + 1
          ≡ 128 + (get_new_address (128 ∷ []) (new_pool 999 0 8 128)).1.ap_index)
      × (0 < (get_new_address (128 ∷ []) (new_pool 999 0 8 128)).1.ap_index))
    ⊎ (((get_new_address (128 ∷ []) (new_pool 999 0 8 128)).0 ≡ 254)
        × ((get_new_address (128 ∷ []) (new_pool 999 0 8 128)).1.ap_index ≡ 17))
unfolding new_pool
get_new_address-fresh_example =
    get_new_address-fresh (128 ∷ []) (new_pool 999 0 8 128) 128 17 refl (omega arith)
