-- ===== src/Name.antt =====
-- navigation_server/nmea2000_datamodel/nmea2k_name.py: the 64-bit ISO name of a controller
-- application, fixed (`NMEA2000Name`) and with parameters that can be changed
-- (`NMEA2000MutableName`). The texts of the fields have no field here.
pub mod Layout
pub mod Fields
pub mod Parameters
mod Tests
use navigation_server.Base.{
  ℕ, zero, suc, ◌+◌, ◌-◌, ◌*◌, ◌/◌, ◌%◌, ◌^◌, ltb, ◌==◌, if◌then◌else◌, bit_and, bit_or, Bool, true,
  false, ◌||◌, Option, none, some, List, [], ◌∷◌, map, get_elem?, Dict, get, put, Result, ok, err,
  key_error, index_error, value_error, struct_error, ◌>>=◌, leb,
}
use navigation_server.Base.Bits.{◌<<◌, ◌>>◌}

-- The names of the fields, the keys of `NMEA2000Name.fields`.
pub data FieldName : Type 0 where
  identity_number manufacturer_code device_instance_lower device_instance_upper : FieldName
  device_function reserved device_class system_instance industry_group : FieldName
  arbitrary_address_capable name_value : FieldName

pub record NameField : Type 0 where
  pub bit_size : ℕ
  pub bit_offset : ℕ

abbrev field_of : ℕ → ℕ → NameField
field_of size offset = record { bit_size = size; bit_offset = offset }

abbrev pub field : FieldName → NameField
field identity_number = field_of 21 0
field manufacturer_code = field_of 11 21
field device_instance_lower = field_of 3 32
field device_instance_upper = field_of 5 35
field device_function = field_of 8 40
field reserved = field_of 1 48
field device_class = field_of 7 49
field system_instance = field_of 4 56
field industry_group = field_of 3 60
field arbitrary_address_capable = field_of 1 63
field name_value = field_of 64 0

-- The order of the tuple `__fields`.
abbrev pub all_fields : List FieldName
all_fields =
    identity_number ∷ manufacturer_code ∷ device_instance_lower ∷ device_instance_upper
    ∷ device_function ∷ reserved ∷ device_class ∷ system_instance ∷ industry_group
    ∷ arbitrary_address_capable ∷ name_value ∷ []

abbrev pub mask : NameField → ℕ
mask f = 2 ^ f.bit_size - 1

abbrev pub byte_size : NameField → ℕ
byte_size f = if f.bit_size % 8 == 0 then f.bit_size / 8 else f.bit_size / 8 + 1

unfoldable pub extract_field : NameField → ℕ → ℕ
extract_field f value = bit_and (value >> f.bit_offset) (mask f)

unfoldable pub set_field : NameField → ℕ → ℕ → ℕ
set_field f name value = bit_or name (bit_and value (mask f) << f.bit_offset)

-- `create_name` on its keyword arguments in order, up to the bytes.
unfoldable pub create_name : List (FieldName × ℕ) → ℕ → ℕ
create_name [] name = name
create_name ((key, value) ∷ rest) name = create_name rest (set_field (field key) name value)

-- The number of a field in the order, for the keys of a dictionary.
abbrev pub index_of : FieldName → ℕ
index_of identity_number = 0
index_of manufacturer_code = 1
index_of device_instance_lower = 2
index_of device_instance_upper = 3
index_of device_function = 4
index_of reserved = 5
index_of device_class = 6
index_of system_instance = 7
index_of industry_group = 8
index_of arbitrary_address_capable = 9
index_of name_value = 10

unfoldable pub get_field_property : ℕ → Result (ℕ × FieldName)
get_field_property field_num = elim field_num [
  | zero ↦ err index_error
  | suc n ↦ elim (get_elem? all_fields n) [
    | none ↦ err index_error
    | some name ↦ ok (byte_size (field name), name)
  ]
]

pub record MutableName : Type 0 where
  pub value : ℕ
  pub value_dict : Dict ℕ

-- The loop of `build_value` over the fields.
unfoldable pub build_fields : Dict ℕ → List FieldName → ℕ → ℕ
build_fields d [] value = value
build_fields d (name ∷ names) value = elim (get d (index_of name)) [
  | none ↦ build_fields d names value
  | some v ↦ build_fields d names (set_field (field name) value v)
]

unfoldable pub build_value : MutableName → MutableName
unfolding build_fields
build_value n = record n { value = build_fields n.value_dict all_fields 0 }

-- The keyword arguments of the constructor, all of them names of fields.
unfoldable pub new_mutable_name : List (FieldName × ℕ) → Dict ℕ → MutableName
unfolding build_value
new_mutable_name [] d = build_value (record { value = 0; value_dict = d })
new_mutable_name ((key, value) ∷ rest) d = new_mutable_name rest (put d (index_of key) value)

abbrev pub parameter_set_table : ℕ → Option FieldName
parameter_set_table n =
    if n == 3
    then some device_instance_lower
    else if n == 4
    then some device_instance_upper
    else if n == 8
    then some system_instance
    else none

-- One parameter, by what the table says of it: its result, and the dictionary and the flag after
-- it.
abbrev pub apply_parameter : Option FieldName → ℕ → Dict ℕ → Bool → ℕ × (Dict ℕ × Bool)
apply_parameter none value d change = (1, (d, change))
apply_parameter (some key) value d change =
    if ltb (mask (field key)) value
    then (3, (d, change))
    else (0, (put d (index_of key) value, true))

unfoldable pub modify_parameter : ℕ → ℕ → Dict ℕ → Bool → ℕ × (Dict ℕ × Bool)
modify_parameter param value d change = apply_parameter (parameter_set_table param) value d change

unfoldable pub modify_loop : List (ℕ × ℕ) → Dict ℕ → Bool → List ℕ × (Dict ℕ × Bool)
unfolding modify_parameter
modify_loop [] d change = ([], (d, change))
modify_loop ((param, value) ∷ rest) d change =
    let one = modify_parameter param value d change in
    let more = modify_loop rest one.1.0 one.1.1 in (one.0 ∷ more.0, more.1)

unfoldable pub modify_parameters : MutableName → List (ℕ × ℕ) → List ℕ × MutableName
unfolding modify_loop build_value
modify_parameters n params =
    let run = modify_loop params n.value_dict false in
    let n' = record n { value_dict = run.1.0 } in (run.0, if run.1.1 then build_value n' else n')
