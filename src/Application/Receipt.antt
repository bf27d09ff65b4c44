-- ===== src/Application/Receipt.antt =====
-- Two devices on one address, as `address_claim_receipt` settles it.
use navigation_server.Base.{
  ℕ, ◌≤◌, ◌<◌, ◌≡◌, ◌≢◌, refl, true, false, none, some, List, [], ◌∷◌, ◌++◌, arith, inl, inr,
  lt→ltb, ltb-false, ==_ne, ==_refl, contains, ok, sym,
}
use navigation_server.AddressPool.{get_new_address, range_from}
use navigation_server.AddressPool.Addresses.{get_new_address-fresh}
use navigation_server.Application.{
  address_claim, claim_object, Application, is_stopping, disarm, send_address_claim, give_way,
  change_address, conflict, address_claim_receipt, respond_address_claim,
}

-- The application that holds its address after a conflict.
abbrev pub kept : Application → Application
kept a = record a {
  timers = disarm a.timers a.claim_timer;
  sent = a.sent ++ claim_object a.address a.iso_name 255 ∷ [];
}

pub receipt_kept :
    (a : Application) (network : List ℕ) (name : ℕ)
    → a.iso_name < name
    → address_claim_receipt a network a.address name ≡ (ok tt, kept a)
unfolding address_claim_receipt conflict respond_address_claim
receipt_kept a network name lower =
    rw
      (
        ==_refl a.address,
        ltb-false name a.iso_name (omega (arith, lower)),
        ==_ne name a.iso_name (omega (arith, lower)),
      )
      refl

-- The application that moved to a new address.
abbrev pub moved : Application → List ℕ → Application
moved a network =
    let got = get_new_address network a.app_pool in
    send_address_claim (record a {
      timers = disarm a.timers a.claim_timer;
      app_pool = got.1;
      address = got.0;
      change_request = some a.address;
    })

pub receipt_moved :
    (a : Application) (network : List ℕ) (name : ℕ)
    → name < a.iso_name
    → (get_new_address network a.app_pool).0 ≢ 254
    → a.change_request ≡ none
    → address_claim_receipt a network a.address name ≡ (ok tt, moved a network)
unfolding address_claim_receipt conflict give_way change_address
receipt_moved a network name lower free idle =
    rw
      (
        ==_refl a.address,
        lt→ltb name a.iso_name lower,
        ==_ne (get_new_address network a.app_pool).0 254 free,
        idle,
      )
      refl

-- Two applications with different names on one address receive each other's claim. The lower name
-- keeps the address and repeats its claim; the other, if it knows that the address is
-- taken, does not stop, has no change waiting and its pool is a range with a free address, claims
-- another address.
pub arbitration :
    (low high : Application) (low_network high_network : List ℕ) (start n : ℕ)
    → low.address ≡ high.address
    → low.iso_name < high.iso_name
    → contains high_network high.address ≡ true
    → high.change_request ≡ none
    → is_stopping high.app_state ≡ false
    → high.app_pool.address_pool ≡ range_from start n
    → high.app_pool.ap_index ≤ n
    → (get_new_address high_network high.app_pool).0 ≢ 254
    → let keeper = (address_claim_receipt low low_network high.address high.iso_name).1 in
      let mover = (address_claim_receipt high high_network low.address low.iso_name).1 in
      (keeper.address ≡ low.address)
      × (keeper.sent ≡ low.sent ++ claim_object low.address low.iso_name 255 ∷ [])
      × (mover.address ≢ keeper.address)
      × (mover.app_state ≡ address_claim)
      × (mover.sent ≡ high.sent ++ claim_object mover.address high.iso_name 255 ∷ [])
unfolding send_address_claim respond_address_claim
arbitration low high low_network high_network start n same lower known idle going range inside
      free =
    let fresh : contains high_network (get_new_address high_network high.app_pool).0 ≡ false =
      elim (get_new_address-fresh high_network high.app_pool start n range inside) [
        | inl (away, place, taken) ↦ away
        | inr (none_left, all) ↦ absurd (free none_left)
      ] in
    let away : (get_new_address high_network high.app_pool).0 ≢ high.address = λ e. grind arith in
    rw
      (
        sym same,
        receipt_kept low low_network high.iso_name lower,
        same,
        receipt_moved high high_network low.iso_name lower free idle,
        going,
      )
      (refl, refl, away, refl, refl)
