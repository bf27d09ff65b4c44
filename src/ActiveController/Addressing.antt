-- ===== src/ActiveController/Addressing.antt =====
-- The index of the applications, when one of them changes its address.
use navigation_server.Base.Bits.{and_low_mask}
use navigation_server.Base.{
  Bool, true, false, ◌||◌, [], ◌∷◌, ◌++◌, ◌<◌, bit_and, contains, arith, subst, ◌∙◌, Bool-cases,
  inl, inr, ℕ, ◌≡◌, refl, Option, none, some, List, ◌==◌, if◌then◌else◌, get, put, remove, ok,
  get-put, get-remove,
}
use navigation_server.CanInterface.{CanInterface, remove_first, add_address, remove_address}
use navigation_server.ActiveController.{
  ActiveController, apply_change, enter, remove_application_index, add_application_index,
  change_application_address,
}

-- Where an address change leads: the new address to the application, the old one nowhere.
abbrev pub redirected : ℕ → ℕ → ℕ → ℕ → Option ℕ → Option ℕ
redirected application old address k before =
    if address == k then some application else if old == k then none else before

get-moved :
    (d : List (ℕ × ℕ)) (application old address k : ℕ)
    → get (put (remove d old) address application) k
      ≡ redirected application old address k (get d k)
get-moved d application old address k =
    rw (get-put (remove d old) address k application, get-remove d old k) refl

remove_application_index-eq :
    (c : ActiveController) (old device indexed : ℕ)
    → get c.devices old ≡ some device
    → get c.app_index old ≡ some indexed
    → remove_application_index c old ≡ (
      ok tt,
      record c {
        devices = remove c.devices old;
        can = remove_address c.can old;
        app_index = remove c.app_index old;
      },
    )
unfolding remove_application_index
remove_application_index-eq c old device indexed held found =
    rw (held, remove_application_index) (rw (found, remove_application_index) refl)

-- The addresses of an interface after one is removed and another is added.
contains-remove_first :
    (xs : List ℕ) (old k : ℕ)
    → (old == k) ≡ false
    → contains (remove_first xs old) k ≡ contains xs k
unfolding remove_first
contains-remove_first [] old k ne = refl
contains-remove_first (x ∷ xs) old k ne = ground (arith, contains-remove_first xs old k ne)

contains_last : (xs : List ℕ) (y k : ℕ) → contains (xs ++ y ∷ []) k ≡ (contains xs k || (k == y))
contains_last [] y k = ground arith
contains_last (x ∷ xs) y k = ground (arith, contains_last xs y k)

-- Whether an address is accepted after a change.
abbrev pub accepted_after : ℕ → ℕ → ℕ → Bool → Bool
accepted_after old address k before =
    if address == k then true else if old == k then false else before

contains-changed :
    (can : CanInterface) (old address k : ℕ)
    → address < 256
    → contains (remove_first can.addresses old) old ≡ false
    → contains (add_address (remove_address can old) address).addresses k
      ≡ accepted_after old address k (contains can.addresses k)
unfolding add_address remove_address
contains-changed can old address k small once =
    let low : bit_and address 0xFF ≡ address = and_low_mask 8 address ∙ omega (arith, small) in
    let last = contains_last (remove_first can.addresses old) address k in
    rw low (
      last ∙ elim (Bool-cases (old == k)) [
        | inl same ↦
            let e : old ≡ k = ground arith in
            let gone : contains (remove_first can.addresses old) k ≡ false =
              subst (λ (x : ℕ). contains (remove_first can.addresses old) x ≡ false) e once in
            rw (gone, same) (ground arith)
        | inr other ↦ rw (contains-remove_first can.addresses old k other, other) (ground arith)
      ])

-- A change of address of an application to an address below 256, where the old address is in the table of
-- devices and in the index and stands at most once in the list of the interface, goes through: in the table
-- and the index, the new address leads to the application, the old one, unless it is the new one, to
-- nothing, and every other address where it led before; the interface accepts the new address, no
-- longer the old one, unless it is the new one, and every other address as before; and another
-- change can be asked for.
pub apply_change-redirects :
    (c : ActiveController) (application old address device indexed k : ℕ)
    → get c.devices old ≡ some device
    → get c.app_index old ≡ some indexed
    → address < 256
    → contains (remove_first c.can.addresses old) old ≡ false
    → let after = (apply_change c application old address).1 in
      ((apply_change c application old address).0 ≡ ok tt)
      × (get after.devices k ≡ redirected application old address k (get c.devices k))
      × (get after.app_index k ≡ redirected application old address k (get c.app_index k))
      × (contains after.can.addresses k ≡ accepted_after old address k (contains c.can.addresses k))
      × ((change_application_address after application address).0 ≡ ok tt)
unfolding apply_change enter add_application_index change_application_address
apply_change-redirects c application old address device indexed k held found small once =
    rw (remove_application_index-eq c old device indexed held found) (
      refl,
      get-moved c.devices application old address k,
      get-moved c.app_index application old address k,
      contains-changed c.can old address k small once,
      refl,
    )
