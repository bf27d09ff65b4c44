-- ===== src/Base/Results.antt =====
-- Python's exceptions as values. A method that mutates its object and may raise returns the state
-- beside the result, since what was written before a raise stays written.
use Prim.Native.Nat.{ℕ}
use mathlib.Core.Path.{◌≡◌, refl}
use mathlib.Core.Logic.{◌⊎◌, inl, inr}

pub data Exception : Type 0 where
  index_error key_error value_error type_error struct_error not_implemented : Exception
  fast_packet_first fast_packet_duplicate fast_packet_missing : ℕ → Exception
  iso_transport invalid_frame incomplete_message unknown_pgn definition_error : Exception
  publisher_overflow coupler_read raw_decode socket_can queue_full : Exception
  assertion_error runtime_error attribute_error overflow_error ve_direct coupler_write : Exception

pub data Result {ℓ} (A : Type ℓ) : Type ℓ where
  err : Exception → Result A
  ok : A → Result A

-- A raise skips what comes after it.
infixl 5 ◌>>◌
abbrev pub ◌>>◌ {ℓ} : {B : Type ℓ} (first : Result (Unit {0})) (next : Result B) → Result B
err raised >> next = err raised
ok _ >> next = next

infixl 5 ◌>>=◌
abbrev pub ◌>>=◌ {ℓ κ} :
    {A : Type ℓ} {B : Type κ} (first : Result A) (next : A → Result B) → Result B
err raised >>= next = err raised
ok value >>= next = next value

pub Result-cases {ℓ} :
    {A : Type ℓ} (r : Result A) → ((a : A) × (r ≡ ok a)) ⊎ ((e : Exception) × (r ≡ err e))
Result-cases (ok a) = inl (a, refl)
Result-cases (err e) = inr (e, refl)
