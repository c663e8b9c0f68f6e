-- ===== src/Prelude/Error.antt =====
-- Exceptions as values, and the API error that the handlers turn into a response.
use ax_server.Prelude.{
  ℕ, ◌≡◌, refl, Bool, true, false, Option, none, some, ◌⊎◌, inl, inr, arith, ap, ◌≢◌,
}
use ax_server.Prelude.Text.{Str}

pub data Result {ℓ κ} (E : Type ℓ) (A : Type κ) : Type (ℓ ⊔ κ) where
  ok : A → Result E A
  err : E → Result E A

-- An exception ends the block of statements.
abbrev pub ◌>>=◌ {ℓ κ ι} :
    {E : Type ℓ} {A : Type κ} {B : Type ι} → Result E A → (A → Result E B) → Result E B
err raised >>= rest = err raised
ok value >>= rest = rest value

abbrev pub ◌>>◌ {ℓ ι} : {E : Type ℓ} {B : Type ι} → Result E (Unit {0}) → Result E B → Result E B
statement >> rest = statement >>= λ done. rest

infixl 5 ◌>>=◌ ◌>>◌
-- `if b: raise e`
abbrev pub raise_if {ℓ} : {E : Type ℓ} → Bool → E → Result E (Unit {0})
raise_if true e = err e
raise_if false e = ok tt

abbrev pub or_raise {ℓ κ} : {E : Type ℓ} {A : Type κ} → Option A → E → Result E A
or_raise none e = err e
or_raise (some a) e = ok a

-- `except E as e: raise f(e)`
abbrev pub map_err {ℓ κ ι} :
    {E : Type ℓ} {F : Type κ} {A : Type ι} → (E → F) → Result E A → Result F A
map_err f (ok a) = ok a
map_err f (err e) = err (f e)

pub Result-cases {ℓ κ} :
    {E : Type ℓ} {A : Type κ} (r : Result E A) → ((a : A) × (r ≡ ok a)) ⊎ ((e : E) × (r ≡ err e))
Result-cases (ok a) = inl (a, refl)
Result-cases (err e) = inr (e, refl)

-- `class APIError(Exception)`
pub record ApiError : Type 0 where
  pub code : Str
  pub message : Str
  pub status_code : ℕ
  pub details : Option Str

-- What a handler raises: an API error, or an exception that the generic handler turns into a 500
pub data Raised : Type 0 where
  api : ApiError → Raised
  exception : Str → Raised

-- What a block that succeeds has come through
pub >>=-ok :
    {E A B : Type 0} (m : Result E A) (f : A → Result E B) (b : B)
    → (m >>= f) ≡ ok b
    → (a : A) × (m ≡ ok a) × (f a ≡ ok b)
>>=-ok m f b h = elim (Result-cases m) [
  | inl (a, e) ↦ (a, e, ground arith)
  | inr (x, e) ↦ absurd (ground arith)
]

pub ok-injective : {E A : Type 0} {a b : A} → Path (Result E A) (ok a) (ok b) → a ≡ b
ok-injective h = ground arith

pub map_err-ok :
    {E F A : Type 0} (f : E → F) (r : Result E A) (a : A) → map_err f r ≡ ok a → r ≡ ok a
map_err-ok f (ok b) a h = ap ok (ok-injective h)
map_err-ok f (err e) a h = absurd (ground arith)

pub some-injective {ℓ} : {A : Type ℓ} {a b : A} → some a ≡ some b → a ≡ b
some-injective h = ground arith

pub none≢some {ℓ} : {A : Type ℓ} (a : A) → none ≢ some a
none≢some a h = ground arith

pub ok≢err {ℓ} : {E : Type ℓ} {A : Type ℓ} {a : A} {e : E} → Path (Result E A) (ok a) (err e) → ⊥
ok≢err h = ground arith

pub err-injective : {E A : Type 0} {a b : E} → Path (Result E A) (err a) (err b) → a ≡ b
err-injective h = ground arith
