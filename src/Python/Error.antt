-- ===== src/Python/Error.antt =====
-- The exceptions that the program raises or meets, and calls that may raise.
use edgesense_ai.Prelude.{◌≡◌, refl, Bool, true, false, Option, none, some}

-- Why `verify_artifact` refuses an artifact, one constructor for each `raise`.
pub data Refusal : Type 0 where
  unsigned_required unreadable not_an_object bad_algorithm digest_mismatch : Refusal
  no_trusted_keys untrusted_key bad_encoding bad_signature : Refusal

pub data Error : Type 0 where
  verification : Refusal → Error
  signing registry_error runtime_error : Error
  value_error type_error key_error index_error zero_division : Error
  attribute_error os_error import_error system_exit : Error

-- What a call gives: the exception that it raised, or its value.
pub data Result {ℓ} (A : Type ℓ) : Type ℓ where
  err : Error → Result A
  ok : A → Result A

-- `if c: raise e`
abbrev pub raise_if : Bool → Error → Result (Unit {0})
raise_if true e = err e
raise_if false e = ok tt

-- A call and the code behind it, which an exception skips.
infixl 5 ◌>>=◌
abbrev pub ◌>>=◌ {ℓ κ} :
    {Value : Type ℓ} {Next : Type κ} → Result Value → (Value → Result Next) → Result Next
err raised >>= next = err raised
ok value >>= next = next value

-- A statement and the code behind it.
infixl 5 ◌>>◌
abbrev pub ◌>>◌ {κ} : {Next : Type κ} → Result (Unit {0}) → Result Next → Result Next
statement >> next = statement >>= λ _. next

abbrev pub or_raise {ℓ} : {A : Type ℓ} → Option A → Error → Result A
or_raise none e = err e
or_raise (some a) e = ok a

-- Inversion of a chain that raised nothing.
pub bind_ok {ℓ κ} :
    {Value : Type ℓ} {Next : Type κ} (call : Result Value) (next : Value → Result Next) {y : Next}
    → (call >>= next) ≡ ok y
    → (value : Value) × (call ≡ ok value) × (next value ≡ ok y)
bind_ok (err raised) next h = cc
bind_ok (ok value) next h = (value, refl, h)

pub or_raise_ok {ℓ} :
    {A : Type ℓ} (o : Option A) (e : Error) {a : A} → or_raise o e ≡ ok a → o ≡ some a
or_raise_ok none e h = cc
or_raise_ok (some a) e h = cc

pub raise_if_ok {ℓ} :
    {B : Type ℓ} (b : Bool) (e : Error) (k : Result B) {y : B}
    → (raise_if b e >> k) ≡ ok y
    → (b ≡ false) × (k ≡ ok y)
raise_if_ok true e k h = cc
raise_if_ok false e k h = (refl, h)

pub ok_inj {ℓ} : {A : Type ℓ} {x y : A} → ok x ≡ ok y → x ≡ y
ok_inj h = cc

abbrev pub is_ok {ℓ} : {A : Type ℓ} → Result A → Bool
is_ok (ok a) = true
is_ok (err e) = false

pub total_of {ℓ} : {A : Type ℓ} (r : Result A) → is_ok r ≡ true → (a : A) × (r ≡ ok a)
total_of (ok a) h = (a, refl)
total_of (err e) h = cc
