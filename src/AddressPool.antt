-- ===== src/AddressPool.antt =====
-- navigation_server/can_interface/nmea2k_application.py, the class `NMEA2000ApplicationPool`: the
-- addresses and names that the applications of a controller get. The addresses in use on the network
-- come from the controller, an argument; the options come from the configuration.
pub mod Addresses
mod Tests
use navigation_server.Base.{
  ℕ, zero, suc, ◌+◌, ◌*◌, bit_or, Bool, true, false, List, [], ◌∷◌, ltb, ◌==◌, if◌then◌else◌,
  contains, drop, Result, ok, err, index_error,
}
use navigation_server.Name.{
  FieldName, identity_number, manufacturer_code, device_class, device_function, industry_group,
  arbitrary_address_capable, MutableName, new_mutable_name,
}

pub record ApplicationPool : Type 0 where
  pub mfg_code : ℕ
  pub unique_id_root : ℕ
  pub max_application : ℕ
  pub address_pool : List ℕ
  pub ap_index : ℕ
  pub application_count : ℕ

-- `n` numbers from `a` on.
abbrev pub range_from : ℕ → ℕ → List ℕ
range_from a zero = []
range_from a (suc n) = a ∷ range_from (a + 1) n

-- The constructor; `unique_id_root` is already shifted.
unfoldable pub new_pool : ℕ → ℕ → ℕ → ℕ → ApplicationPool
new_pool mfg_code unique_id_root max_application address_pool_start = record {
  mfg_code = mfg_code;
  unique_id_root = unique_id_root;
  max_application = max_application;
  address_pool = range_from address_pool_start (2 * max_application + 1);
  ap_index = 0;
  application_count = 0;
}

-- The loop on what is left of the pool: the address, and how many of them were taken.
unfoldable pub first_free : List ℕ → List ℕ → ℕ × ℕ
first_free network [] = (254, 0)
first_free network (address ∷ rest) =
    let more = first_free network rest in
    if contains network address then (more.0, 1 + more.1) else (address, 1)

unfoldable pub get_new_address : List ℕ → ApplicationPool → ℕ × ApplicationPool
unfolding first_free
get_new_address network p =
    let found = first_free network (drop p.ap_index p.address_pool) in
    (found.0, record p { ap_index = p.ap_index + found.1 })

unfoldable pub application_name : ApplicationPool → ℕ → ℕ → Result MutableName × ApplicationPool
application_name p dev_class dev_function =
    if ltb p.application_count p.max_application
    then (
      ok (
          new_mutable_name
            ((identity_number, bit_or p.unique_id_root p.application_count)
              ∷ (manufacturer_code, p.mfg_code)
              ∷ (device_class, dev_class)
              ∷ (device_function, dev_function)
              ∷ (industry_group, 4)
              ∷ (arbitrary_address_capable, 1)
              ∷ [])
            []),
      record p { application_count = p.application_count + 1 },
    )
    else (err index_error, p)

-- The name is asked for after the address, which stays taken if there is no name.
unfoldable pub application_ids :
    List ℕ → ApplicationPool → ℕ → ℕ → Result (ℕ × MutableName) × ApplicationPool
unfolding get_new_address application_name
application_ids network p dev_class dev_function =
    let got = get_new_address network p in
    if got.0 == 254
    then (err index_error, got.1)
    else let named = application_name got.1 dev_class dev_function in
      (elim named.0 [ ok name ↦ ok (got.0, name) | err e ↦ err e ], named.1)
