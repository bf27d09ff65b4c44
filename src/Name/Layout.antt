-- ===== src/Name/Layout.antt =====
-- The value of a name as the sum of its fields, each above the bits of those before it.
use native.Mathlib.Nat.{mod-lt, pow-suc}
use navigation_server.Base.{
  ℕ, zero, suc, ◌+◌, ◌*◌, ◌%◌, ◌^◌, ◌<◌, ◌≡◌, refl, ◌∙◌, Option, none, some, List, [], ◌∷◌, arith,
  drop, Dict, get,
}
use navigation_server.Base.Bits.{and_low_mask, or_fields_low}
use navigation_server.Name.{
  FieldName, identity_number, manufacturer_code, device_instance_lower, device_instance_upper,
  device_function, reserved, device_class, system_instance, industry_group,
  arbitrary_address_capable, name_value, field, index_of, all_fields, build_fields, set_field,
}

-- What a field holds: its value cut to its bits, 0 without one.
abbrev pub held : ℕ → Option ℕ → ℕ
held size none = 0
held size (some v) = v % 2 ^ size

abbrev pub part : Dict ℕ → FieldName → ℕ
part d name = held (field name).bit_size (get d (index_of name))

pow-pos : (k : ℕ) → 0 < 2 ^ k
pow-pos zero = omega arith
pow-pos (suc k) = omega (arith, pow-suc 2 k, pow-pos k)

held_bound : (size : ℕ) (o : Option ℕ) → held size o < 2 ^ size
held_bound size none = pow-pos size
held_bound size (some v) = mod-lt v (pow-pos size)

-- A field above all bits that are set so far.
build_fields-cons :
    (d : Dict ℕ) (name : FieldName) (names : List FieldName) (value : ℕ)
    → value < 2 ^ (field name).bit_offset
    → build_fields d (name ∷ names) value
      ≡ build_fields d names (part d name * 2 ^ (field name).bit_offset + value)
unfolding build_fields set_field
build_fields-cons d name names value fits = go (get d (index_of name)) refl
  where
    go :
        (o : Option ℕ)
        → get d (index_of name) ≡ o
        → build_fields d (name ∷ names) value
          ≡ build_fields d names
              (held (field name).bit_size o * 2 ^ (field name).bit_offset + value)
    go none e =
        let same : 0 * 2 ^ (field name).bit_offset + value ≡ value = omega arith in
        rw (e, build_fields, same)
    go (some v) e = rw (
      e,
      build_fields,
      and_low_mask (field name).bit_size v,
      or_fields_low (field name).bit_offset (v % 2 ^ (field name).bit_size) value fits,
    )

module _ (d : Dict ℕ) where
  -- The value with the fields up to each one.
  abbrev pub with_identity_number : ℕ
  with_identity_number = part d identity_number * 2 ^ 0 + 0

  abbrev pub with_manufacturer_code : ℕ
  with_manufacturer_code = part d manufacturer_code * 2 ^ 21 + with_identity_number

  abbrev pub with_device_instance_lower : ℕ
  with_device_instance_lower = part d device_instance_lower * 2 ^ 32 + with_manufacturer_code

  abbrev pub with_device_instance_upper : ℕ
  with_device_instance_upper = part d device_instance_upper * 2 ^ 35 + with_device_instance_lower

  abbrev pub with_device_function : ℕ
  with_device_function = part d device_function * 2 ^ 40 + with_device_instance_upper

  abbrev pub with_reserved : ℕ
  with_reserved = part d reserved * 2 ^ 48 + with_device_function

  abbrev pub with_device_class : ℕ
  with_device_class = part d device_class * 2 ^ 49 + with_reserved

  abbrev pub with_system_instance : ℕ
  with_system_instance = part d system_instance * 2 ^ 56 + with_device_class

  abbrev pub with_industry_group : ℕ
  with_industry_group = part d industry_group * 2 ^ 60 + with_system_instance

  abbrev pub with_arbitrary_address_capable : ℕ
  with_arbitrary_address_capable = part d arbitrary_address_capable * 2 ^ 63 + with_industry_group

  bound : (name : FieldName) → part d name < 2 ^ (field name).bit_size
  bound name = held_bound (field name).bit_size (get d (index_of name))

  pub identity_number_low : with_identity_number < 2 ^ 21
  identity_number_low = omega (arith, bound identity_number)

  pub manufacturer_code_low : with_manufacturer_code < 2 ^ 32
  manufacturer_code_low = omega (arith, bound manufacturer_code, identity_number_low)

  pub device_instance_lower_low : with_device_instance_lower < 2 ^ 35
  device_instance_lower_low = omega (arith, bound device_instance_lower, manufacturer_code_low)

  pub device_instance_upper_low : with_device_instance_upper < 2 ^ 40
  device_instance_upper_low = omega (arith, bound device_instance_upper, device_instance_lower_low)

  pub device_function_low : with_device_function < 2 ^ 48
  device_function_low = omega (arith, bound device_function, device_instance_upper_low)

  pub reserved_low : with_reserved < 2 ^ 49
  reserved_low = omega (arith, bound reserved, device_function_low)

  pub device_class_low : with_device_class < 2 ^ 56
  device_class_low = omega (arith, bound device_class, reserved_low)

  pub system_instance_low : with_system_instance < 2 ^ 60
  system_instance_low = omega (arith, bound system_instance, device_class_low)

  pub industry_group_low : with_industry_group < 2 ^ 63
  industry_group_low = omega (arith, bound industry_group, system_instance_low)

  pub arbitrary_address_capable_low : with_arbitrary_address_capable < 2 ^ 64
  arbitrary_address_capable_low = omega (arith, bound arbitrary_address_capable, industry_group_low)

  pub build_fields-all :
      get d 10 ≡ none → build_fields d all_fields 0 ≡ with_arbitrary_address_capable
  unfolding build_fields
  build_fields-all no_value =
      build_fields-cons d identity_number (drop 1 all_fields) 0 (omega arith)
      ∙ build_fields-cons d manufacturer_code (drop 2 all_fields) with_identity_number
          identity_number_low
      ∙ build_fields-cons d device_instance_lower (drop 3 all_fields) with_manufacturer_code
          manufacturer_code_low
      ∙ build_fields-cons d device_instance_upper (drop 4 all_fields) with_device_instance_lower
          device_instance_lower_low
      ∙ build_fields-cons d device_function (drop 5 all_fields) with_device_instance_upper
          device_instance_upper_low
      ∙ build_fields-cons d reserved (drop 6 all_fields) with_device_function device_function_low
      ∙ build_fields-cons d device_class (drop 7 all_fields) with_reserved reserved_low
      ∙ build_fields-cons d system_instance (drop 8 all_fields) with_device_class device_class_low
      ∙ build_fields-cons d industry_group (drop 9 all_fields) with_system_instance
          system_instance_low
      ∙ build_fields-cons d arbitrary_address_capable (name_value ∷ []) with_industry_group
          industry_group_low
      ∙ rw (no_value, build_fields)
