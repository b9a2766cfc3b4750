-- ===== src/Prelude/Results.antt =====
-- Exceptions as values: what a call throws, and a monad for calls that may throw.
use mathlib.Core.Path.{◌≡◌, refl}
use mathlib.Core.Logic.{◌⊎◌, inl, inr}
use mathlib.Core.Bool.{Bool, true, false}
use mathlib.Core.Option.{Option, none, some}

pub data Error : Type 0 where
  length_error read_out_of_bounds : Error
  invalid_hexadecimal invalid_base64_character : Error
  invalid_public_key invalid_key_size no_shared_secret key_too_short iv_too_short : Error
  body_too_long invalid_signature key_mismatch : Error
  not_a_state_message truncated_state_message missing_source send_failed : Error
  unknown_node unknown_state vertice_not_found missing_local_node no_broadcast : Error
  initialization_failed not_started mapping_failed certificate_failed key_failed : Error
  port_mapping_failed server_failed : Error → Error

pub data Result {ℓ} (A : Type ℓ) : Type ℓ where
  ok : A → Result A
  err : Error → Result A

pub Result-cases {ℓ} :
    {A : Type ℓ} (r : Result A) → ((x : Error) × (r ≡ err x)) ⊎ ((a : A) × (r ≡ ok a))
Result-cases (err x) = inl (x, refl)
Result-cases (ok a) = inr (a, refl)

-- `if (!test) throw e`
abbrev pub guard : Bool → Error → Result (Unit {0})
guard false failure = err failure
guard true failure = ok tt

-- The value of an `optional`, or a throw.
abbrev pub or_throw {ℓ} : {A : Type ℓ} → Option A → Error → Result A
or_throw none e = err e
or_throw (some a) e = ok a

infixl 5 ◌>>=◌ ◌>>◌
-- What comes after a call, unless that threw.
abbrev pub ◌>>=◌ {ℓ κ} : {A : Type ℓ} {B : Type κ} → Result A → (A → Result B) → Result B
err failure >>= next = err failure
ok result >>= next = next result

abbrev pub ◌>>◌ {ℓ} : {B : Type ℓ} → Result (Unit {0}) → Result B → Result B
check >> next = check >>= λ _. next
