-- ===== src/Common/Result.antt =====
-- Exceptions as values: a function that may raise returns a `Result`.
use Prim.Native.String.{String}
use mathlib.Core.Path.{◌≡◌, refl}
use mathlib.Core.Bool.{Bool, true, false}
use mathlib.Core.List.{List, [], ◌∷◌}

-- The exception class with its message. `UnicodeDecodeError` is a `ValueError` of its own, and
-- `out_of_fuel` is the model's: the theorems show that no call gives it.
pub data Error : Type 0 where
  value_error : String → Error
  type_error : String → Error
  key_error : String → Error
  decode_error : Error
  encode_error : Error
  out_of_fuel : Error

pub data Result {ℓ} (Value : Type ℓ) : Type ℓ where
  err : Error → Result Value
  ok : Value → Result Value

-- What follows a call that may raise.
infixl 5 ◌>>=◌
abbrev pub ◌>>=◌ {ℓ κ} :
    {Value : Type ℓ} {Next : Type κ} → Result Value → (Value → Result Next) → Result Next
err raised >>= following = err raised
ok value >>= following = following value

-- What follows a check.
infixl 5 ◌>>◌
abbrev pub ◌>>◌ {κ} : {Next : Type κ} → Result (Unit {0}) → Result Next → Result Next
check >> following = check >>= λ passed. following

-- `if test: raise error`
abbrev pub raise_if : Bool → Error → Result (Unit {0})
raise_if true e = err e
raise_if false e = ok tt

abbrev pub is_ok {ℓ} : {A : Type ℓ} → Result A → Bool
is_ok (ok a) = true
is_ok (err e) = false

-- `tuple(f(item) for item in items)`
abbrev pub map_result {ℓ κ} : {A : Type ℓ} {B : Type κ} → (A → Result B) → List A → Result (List B)
map_result f [] = ok []
map_result f (x ∷ xs) = f x >>= λ y. map_result f xs >>= λ ys. ok (y ∷ ys)

-- Where a call and what follows it return, the call returned a value that the rest returns on.
pub >>=-eq-ok {ℓ κ} :
    {Value : Type ℓ} {Next : Type κ} (call : Result Value) (following : Value → Result Next)
    {final : Next}
    → (call >>= following) ≡ ok final
    → (value : Value) × (call ≡ ok value) × (following value ≡ ok final)
>>=-eq-ok (err raised) following returned = cc
>>=-eq-ok (ok value) following returned = (value, refl, returned)

pub ok_injective {ℓ} : {A : Type ℓ} (a b : A) → ok a ≡ ok b → a ≡ b
ok_injective a b h = cc

-- Whatever `m` returns satisfies `P`.
pub record Ensures {ℓ κ} {A : Type ℓ} (P : A → Type κ) (m : Result A) : Type (ℓ ⊔ κ) where
  pub at : (a : A) → m ≡ ok a → P a

pub bind-Ensures {ℓ κ ι} :
    {A : Type ℓ} {B : Type κ} {P : B → Type ι} (m : Result A) {f : A → Result B}
    → ((a : A) → m ≡ ok a → Ensures P (f a))
    → Ensures P (m >>= f)
bind-Ensures (ok a) k = k a refl
bind-Ensures (err e) k = record { at = λ a h. cc }
