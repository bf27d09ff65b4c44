-- ===== src/Name/Fields.antt =====
-- The fields of a built name do not overlap: each reads as the value that was given for it.
use navigation_server.Base.{◌/◌, ◌^◌, ◌≡◌, ◌≢◌, refl, none, arith, get}
use navigation_server.Base.Bits.{and_low_mask}
use navigation_server.Name.{
  FieldName, identity_number, manufacturer_code, device_instance_lower, device_instance_upper,
  device_function, reserved, device_class, system_instance, industry_group,
  arbitrary_address_capable, name_value, field, index_of, build_value, extract_field, MutableName,
}
use navigation_server.Name.Layout.{
  part, with_arbitrary_address_capable, build_fields-all, identity_number_low,
  manufacturer_code_low, device_instance_lower_low, device_instance_upper_low, device_function_low,
  reserved_low, device_class_low, system_instance_low, industry_group_low,
  arbitrary_address_capable_low,
}

-- Every field of a name that is built from a dictionary without a whole value reads as the value
-- in the dictionary, cut to the bits of the field, or 0 without one.
pub extract_field-build_value :
    (n : MutableName) (name : FieldName)
    → get n.value_dict (index_of name_value) ≡ none
    → name ≢ name_value
    → extract_field (field name) (build_value n).value ≡ part n.value_dict name
unfolding extract_field build_value
extract_field-build_value n identity_number no_value other =
    rw
      (
        build_fields-all n.value_dict no_value,
        and_low_mask 21 (with_arbitrary_address_capable n.value_dict / 2 ^ 0),
      )
      (omega (
        arith,
        identity_number_low n.value_dict,
        manufacturer_code_low n.value_dict,
        device_instance_lower_low n.value_dict,
        device_instance_upper_low n.value_dict,
        device_function_low n.value_dict,
        reserved_low n.value_dict,
        device_class_low n.value_dict,
        system_instance_low n.value_dict,
        industry_group_low n.value_dict,
        arbitrary_address_capable_low n.value_dict,
      ))
extract_field-build_value n manufacturer_code no_value other =
    rw
      (
        build_fields-all n.value_dict no_value,
        and_low_mask 11 (with_arbitrary_address_capable n.value_dict / 2 ^ 21),
      )
      (omega (
        arith,
        manufacturer_code_low n.value_dict,
        device_instance_lower_low n.value_dict,
        device_instance_upper_low n.value_dict,
        device_function_low n.value_dict,
        reserved_low n.value_dict,
        device_class_low n.value_dict,
        system_instance_low n.value_dict,
        industry_group_low n.value_dict,
        arbitrary_address_capable_low n.value_dict,
        identity_number_low n.value_dict,
      ))
extract_field-build_value n device_instance_lower no_value other =
    rw
      (
        build_fields-all n.value_dict no_value,
        and_low_mask 3 (with_arbitrary_address_capable n.value_dict / 2 ^ 32),
      )
      (omega (
        arith,
        device_instance_lower_low n.value_dict,
        device_instance_upper_low n.value_dict,
        device_function_low n.value_dict,
        reserved_low n.value_dict,
        device_class_low n.value_dict,
        system_instance_low n.value_dict,
        industry_group_low n.value_dict,
        arbitrary_address_capable_low n.value_dict,
        manufacturer_code_low n.value_dict,
      ))
extract_field-build_value n device_instance_upper no_value other =
    rw
      (
        build_fields-all n.value_dict no_value,
        and_low_mask 5 (with_arbitrary_address_capable n.value_dict / 2 ^ 35),
      )
      (omega (
        arith,
        device_instance_upper_low n.value_dict,
        device_function_low n.value_dict,
        reserved_low n.value_dict,
        device_class_low n.value_dict,
        system_instance_low n.value_dict,
        industry_group_low n.value_dict,
        arbitrary_address_capable_low n.value_dict,
        device_instance_lower_low n.value_dict,
      ))
extract_field-build_value n device_function no_value other =
    rw
      (
        build_fields-all n.value_dict no_value,
        and_low_mask 8 (with_arbitrary_address_capable n.value_dict / 2 ^ 40),
      )
      (omega (
        arith,
        device_function_low n.value_dict,
        reserved_low n.value_dict,
        device_class_low n.value_dict,
        system_instance_low n.value_dict,
        industry_group_low n.value_dict,
        arbitrary_address_capable_low n.value_dict,
        device_instance_upper_low n.value_dict,
      ))
extract_field-build_value n reserved no_value other =
    rw
      (
        build_fields-all n.value_dict no_value,
        and_low_mask 1 (with_arbitrary_address_capable n.value_dict / 2 ^ 48),
      )
      (omega (
        arith,
        reserved_low n.value_dict,
        device_class_low n.value_dict,
        system_instance_low n.value_dict,
        industry_group_low n.value_dict,
        arbitrary_address_capable_low n.value_dict,
        device_function_low n.value_dict,
      ))
extract_field-build_value n device_class no_value other =
    rw
      (
        build_fields-all n.value_dict no_value,
        and_low_mask 7 (with_arbitrary_address_capable n.value_dict / 2 ^ 49),
      )
      (omega (
        arith,
        device_class_low n.value_dict,
        system_instance_low n.value_dict,
        industry_group_low n.value_dict,
        arbitrary_address_capable_low n.value_dict,
        reserved_low n.value_dict,
      ))
extract_field-build_value n system_instance no_value other =
    rw
      (
        build_fields-all n.value_dict no_value,
        and_low_mask 4 (with_arbitrary_address_capable n.value_dict / 2 ^ 56),
      )
      (omega (
        arith,
        system_instance_low n.value_dict,
        industry_group_low n.value_dict,
        arbitrary_address_capable_low n.value_dict,
        device_class_low n.value_dict,
      ))
extract_field-build_value n industry_group no_value other =
    rw
      (
        build_fields-all n.value_dict no_value,
        and_low_mask 3 (with_arbitrary_address_capable n.value_dict / 2 ^ 60),
      )
      (omega (
        arith,
        industry_group_low n.value_dict,
        arbitrary_address_capable_low n.value_dict,
        system_instance_low n.value_dict,
      ))
extract_field-build_value n arbitrary_address_capable no_value other =
    rw
      (
        build_fields-all n.value_dict no_value,
        and_low_mask 1 (with_arbitrary_address_capable n.value_dict / 2 ^ 63),
      )
      (omega (arith, arbitrary_address_capable_low n.value_dict, industry_group_low n.value_dict))
extract_field-build_value n name_value no_value other = absurd (other refl)
