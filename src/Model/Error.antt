-- ===== src/Model/Error.antt =====
-- `Error` and `Result` of crates/ployz-types/src/error.rs; `?` is the bind of the monad.
use ployz.Prelude.{◌≡◌, refl, Bool, true, false}
use ployz.Prelude.Text.{Text}

pub record Error : Type 0 where
  pub operation : Text
  pub message : Text

pub data Result {ℓ} (E : Type 0) (A : Type ℓ) : Type ℓ where
  ok : A → Result E A
  err : E → Result E A

infixl 5 ◌>>=◌ ◌>>◌
abbrev pub ◌>>=◌ {ℓ κ} :
    {E : Type 0} {A : Type ℓ} {B : Type κ} → Result E A → (A → Result E B) → Result E B
ok a >>= f = f a
err e >>= f = err e

abbrev pub ◌>>◌ {ℓ} : {E : Type 0} {B : Type ℓ} → Result E (Unit {0}) → Result E B → Result E B
m >> k = m >>= λ _. k

-- `if test { return Err(e) }`
abbrev pub fail_if : {E : Type 0} → Bool → E → Result E (Unit {0})
fail_if true e = err e
fail_if false e = ok tt

-- `map_err`
abbrev pub map_err {ℓ} : {E F : Type 0} {A : Type ℓ} → (E → F) → Result E A → Result F A
map_err f (ok a) = ok a
map_err f (err e) = err (f e)

abbrev pub is_ok {ℓ} : {E : Type 0} {A : Type ℓ} → Result E A → Bool
is_ok (ok a) = true
is_ok (err e) = false

-- What a bind returns comes from what its first part returns.
pub bind-returned {ℓ κ} :
    {E : Type 0} {A : Type ℓ} {B : Type κ} (first : Result E A) (next : A → Result E B) {out : B}
    → (first >>= next) ≡ ok out
    → (a : A) × (first ≡ ok a) × (next a ≡ ok out)
bind-returned (ok x) next e = (x, refl, e)
bind-returned (err failure) next e = cc

abbrev pub returns {ℓ} : {E : Type 0} {A : Type ℓ} → A → Result E A
returns a = ok a

pub ok_injective {ℓ} :
    {E : Type 0} {A : Type ℓ} {a b : A} → returns {E = E} a ≡ returns {E = E} b → a ≡ b
ok_injective e = cc
