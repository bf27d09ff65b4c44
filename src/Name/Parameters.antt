-- ===== src/Name/Parameters.antt =====
-- `modify_parameters`: what it changes in a name, and what it leaves.
use navigation_server.Base.{
  ℕ, suc, ◌^◌, ◌<◌, ◌≡◌, ◌≢◌, refl, ap, sym, ◌∙◌, Bool, false, Option, none, some, List, [], ◌∷◌,
  arith, Dict, get, put, get-put_ne, get-put_self, inl, inr, Bool-cases, ltb, ltb-false, length,
  get_elem?,
}
use native.Mathlib.Nat.{mod-eq_of_lt}
use navigation_server.Name.{
  FieldName, identity_number, manufacturer_code, device_instance_lower, device_instance_upper,
  device_function, reserved, device_class, system_instance, industry_group,
  arbitrary_address_capable, name_value, field, index_of, all_fields, mask, build_value,
  extract_field, MutableName, parameter_set_table, modify_parameter, modify_loop, modify_parameters,
  new_mutable_name,
}
use navigation_server.Name.Layout.{held, part}
use navigation_server.Name.Fields.{extract_field-build_value}

-- The value agrees with the dictionary, as after the constructor, and no whole value is given.
pub record IsBuilt (n : MutableName) : Type 0 where
  pub is_value : (build_value n).value ≡ n.value
  pub no_value : get n.value_dict (index_of name_value) ≡ none

-- The keys that `modify_parameter` writes.
modify_parameter-get :
    (param value : ℕ) (d : Dict ℕ) (change : Bool) (i : ℕ)
    → i ≢ 2
    → i ≢ 3
    → i ≢ 7
    → get (modify_parameter param value d change).1.0 i ≡ get d i
unfolding modify_parameter
modify_parameter-get param value d change i n2 n3 n7 = ground (
  arith,
  get-put_ne d 2 i value (λ e. n2 (sym e)),
  get-put_ne d 3 i value (λ e. n3 (sym e)),
  get-put_ne d 7 i value (λ e. n7 (sym e)),
)

modify_loop-get :
    (params : List (ℕ × ℕ)) (d : Dict ℕ) (change : Bool) (i : ℕ)
    → i ≢ 2
    → i ≢ 3
    → i ≢ 7
    → get (modify_loop params d change).1.0 i ≡ get d i
unfolding modify_loop
modify_loop-get [] d change i n2 n3 n7 = refl
modify_loop-get ((param, value) ∷ rest) d change i n2 n3 n7 =
    let one = modify_parameter param value d change in
    modify_loop-get rest one.1.0 one.1.1 i n2 n3 n7
    ∙ modify_parameter-get param value d change i n2 n3 n7

length-modify_loop :
    (params : List (ℕ × ℕ)) (d : Dict ℕ) (change : Bool)
    → length (modify_loop params d change).0 ≡ length params
unfolding modify_loop
length-modify_loop [] d change = refl
length-modify_loop ((param, value) ∷ rest) d change =
    let one = modify_parameter param value d change in
    ap (λ (k : ℕ). suc k) (length-modify_loop rest one.1.0 one.1.1)

-- A field that the table names is not the whole value.
known_lem :
    (param : ℕ) (name : FieldName) → parameter_set_table param ≡ some name → name ≢ name_value
known_lem param name known e = ground arith

-- The number of a field finds it.
get_elem?-index_of : (name : FieldName) → get_elem? all_fields (index_of name) ≡ some name
get_elem?-index_of identity_number = refl
get_elem?-index_of manufacturer_code = refl
get_elem?-index_of device_instance_lower = refl
get_elem?-index_of device_instance_upper = refl
get_elem?-index_of device_function = refl
get_elem?-index_of reserved = refl
get_elem?-index_of device_class = refl
get_elem?-index_of system_instance = refl
get_elem?-index_of industry_group = refl
get_elem?-index_of arbitrary_address_capable = refl
get_elem?-index_of name_value = refl

index_of_ne : (a b : FieldName) → a ≢ b → index_of a ≢ index_of b
index_of_ne a b ne e =
    let found : some a ≡ some b =
      sym (get_elem?-index_of a)
      ∙ ap (λ (i : ℕ). get_elem? all_fields i) e
      ∙ get_elem?-index_of b in
    ne (cc)

-- A parameter of the table with a value that fits the field is accepted, and the value is read
-- back from the name.
pub modify_parameters_accepted :
    (n : MutableName) (param value : ℕ) (name : FieldName)
    → IsBuilt n
    → parameter_set_table param ≡ some name
    → value < 2 ^ (field name).bit_size
    → ((modify_parameters n ((param, value) ∷ [])).0 ≡ 0 ∷ [])
      × (extract_field (field name) (modify_parameters n ((param, value) ∷ [])).1.value ≡ value)
unfolding modify_parameters
modify_parameters_accepted n param value name built known fits =
    let d = put n.value_dict (index_of name) value in
    let named = known_lem param name known in
    let no_value : get d 10 ≡ none =
      get-put_ne n.value_dict (index_of name) 10 value (index_of_ne name name_value named)
      ∙ built.no_value in
    let low : ltb (mask (field name)) value ≡ false =
      ltb-false (mask (field name)) value (omega (arith, fits)) in
    let is_put : part d name ≡ value =
      ap (λ (o : Option ℕ). held (field name).bit_size o)
        (get-put_self n.value_dict (index_of name) value)
      ∙ mod-eq_of_lt fits in
    (
      rw (known, low),
      rw (known, low)
          (extract_field-build_value (record { value = n.value; value_dict = d }) name no_value
              named
            ∙ is_put),
    )

-- Whatever the parameters, there is one result for each, and every field but the three of the
-- table reads as before.
pub modify_parameters-others :
    (n : MutableName) (params : List (ℕ × ℕ)) (name : FieldName)
    → IsBuilt n
    → name ≢ name_value
    → name ≢ device_instance_lower
    → name ≢ device_instance_upper
    → name ≢ system_instance
    → (length (modify_parameters n params).0 ≡ length params)
      × (extract_field (field name) (modify_parameters n params).1.value
          ≡ extract_field (field name) n.value)
unfolding modify_parameters
modify_parameters-others n params name built named lower upper system =
    let run = modify_loop params n.value_dict false in
    let same : get run.1.0 (index_of name) ≡ get n.value_dict (index_of name) =
      modify_loop-get params n.value_dict false (index_of name)
        (index_of_ne name device_instance_lower lower)
        (index_of_ne name device_instance_upper upper) (index_of_ne name system_instance system) in
    let no_value : get run.1.0 10 ≡ none =
      modify_loop-get params n.value_dict false 10 (omega arith) (omega arith) (omega arith)
      ∙ built.no_value in
    (
      length-modify_loop params n.value_dict false,
      elim (Bool-cases run.1.1) [
        | inl changed ↦ rw changed (
            extract_field-build_value (record { value = n.value; value_dict = run.1.0 }) name
              no_value named
            ∙ ap (λ (o : Option ℕ). held (field name).bit_size o) same
            ∙ sym (extract_field-build_value n name built.no_value named)
            ∙ ap (λ (v : ℕ). extract_field (field name) v) built.is_value)
        | inr kept ↦ rw kept
      ],
    )

-- No keyword argument for the whole value.
abbrev pub NoValue : List (FieldName × ℕ) → Type 0
NoValue [] = Unit
NoValue ((key, value) ∷ rest) = (key ≢ name_value) × NoValue rest

-- The constructor gives a built name when no argument is the whole value.
pub new_mutable_name-IsBuilt :
    (args : List (FieldName × ℕ)) (d : Dict ℕ)
    → NoValue args
    → get d (index_of name_value) ≡ none
    → IsBuilt (new_mutable_name args d)
unfolding new_mutable_name build_value
new_mutable_name-IsBuilt [] d tt no_value = record { is_value = refl; no_value = no_value }
new_mutable_name-IsBuilt ((key, value) ∷ rest) d (other, others) no_value =
    new_mutable_name-IsBuilt rest (put d (index_of key) value) others
      (get-put_ne d (index_of key) 10 value (index_of_ne key name_value other) ∙ no_value)
