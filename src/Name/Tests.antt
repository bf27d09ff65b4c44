-- ===== src/Name/Tests.antt =====
-- The theorems on names at a concrete name.
use navigation_server.Base.{ℕ, ◌≡◌, refl, List, [], ◌∷◌, get, put}
use navigation_server.Name.{
  FieldName, manufacturer_code, device_class, device_function, field, build_value, extract_field,
  new_mutable_name,
}
use navigation_server.Name.Layout.{part}
use navigation_server.Name.Fields.{extract_field-build_value}
use navigation_server.Name.Parameters.{IsBuilt}

abbrev args : List (FieldName × ℕ)
args = (manufacturer_code, 999) ∷ (device_class, 25) ∷ (device_function, 130) ∷ []

args-IsBuilt : IsBuilt (new_mutable_name args [])
unfolding new_mutable_name get put
args-IsBuilt = record { is_value = refl; no_value = refl }

extract_field-build_value_example :
    extract_field (field manufacturer_code) (build_value (new_mutable_name args [])).value
    ≡ part (new_mutable_name args []).value_dict manufacturer_code
unfolding new_mutable_name get put
extract_field-build_value_example =
    extract_field-build_value (new_mutable_name args []) manufacturer_code refl (λ e. cc)
