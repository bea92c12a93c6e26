-- ===== src/Python/Result.antt =====
-- Exceptions as values. `Error` lists the exceptions that the program raises itself
-- (shared/exceptions/provider_exceptions.py and Python's own), and `external` stands for one that
-- a third-party call raises, with its text.
use notifyfork.Common.{String, ◌≡◌, ◌⊎◌, refl, inl, inr}
use Prim.Native.String

pub data Error : Type 0 where
  no_provider_available : String → Error
  template_not_found : String → Error
  provider_delivery : String → String → Error
  value_error : String → Error
  key_error : String → Error
  attribute_error : String → Error
  type_error : String → Error
  external : String → Error

-- `str(exc)`; the text of a KeyError is the `repr` of its key.
unfoldable pub error_text : Error → String
error_text (no_provider_available channel) =
    String.◌++◌ "No provider registered for channel: " channel
error_text (template_not_found template_id) = String.◌++◌ "Template not found: " template_id
error_text (provider_delivery provider reason) =
    String.◌++◌ "Provider '" (String.◌++◌ provider (String.◌++◌ "' failed: " reason))
error_text (value_error text) = text
error_text (key_error key) = String.◌++◌ "'" (String.◌++◌ key "'")
error_text (attribute_error text) = text
error_text (type_error text) = text
error_text (external text) = text

-- What a call gives: a value, or the exception that it raises.
pub data Result {ℓ} (A : Type ℓ) : Type ℓ where
  ok : A → Result A
  err : Error → Result A

module _ {ℓ κ} {A : Type ℓ} {B : Type κ} where
  infixl 5 ◌>>=◌
  -- The statements after one that raises are not run.
  abbrev pub ◌>>=◌ : Result A → (A → Result B) → Result B
  ◌>>=◌ (err raised) next = err raised
  ◌>>=◌ (ok value) next = next value

  -- If a sequence ends with a value, so does its first part, and the rest makes of it what comes out.
  pub >>=-eq-ok :
      (first : Result A) (next : A → Result B) {end : B}
      → (first >>= next) ≡ ok end
      → (value : A) × (first ≡ ok value) × (next value ≡ ok end)
  >>=-eq-ok (err raised) next done = cc
  >>=-eq-ok (ok value) next done = (value, refl, done)

module _ {ℓ} {A : Type ℓ} where
  pub Result-cases : (r : Result A) → ((a : A) × (r ≡ ok a)) ⊎ ((e : Error) × (r ≡ err e))
  Result-cases (err raised) = inr (raised, refl)
  Result-cases (ok value) = inl (value, refl)

  pub ok-injective : (a b : A) → ok a ≡ ok b → a ≡ b
  ok-injective a b e = cc
