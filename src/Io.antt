-- ===== src/Io.antt =====
-- error.rs: `io::Error` by its kind and message, `IoPathError`, and the `Result` type.
use mathlib.Core.Path.{subst}
use btdt.Prelude.{Bytes, Option, none, some, String, ◌≡◌, refl, ◌⊎◌, inl, inr}

-- The kinds of `std::io::ErrorKind` that the crate makes or tests for; `other` is `io::Error::other`.
pub data ErrorKind : Type 0 where
  not_found already_exists is_a_directory not_a_directory directory_not_empty : ErrorKind
  invalid_input invalid_data unexpected_eof write_zero unsupported other : ErrorKind

-- `std::io::Error`, as `io::Error::new(kind, message)` makes it.
pub record IoError : Type 0 where
  pub kind : ErrorKind
  pub message : String

pub record IoPathError : Type 0 where
  pub error : IoError
  pub path : Option Bytes

pub data Result {ℓ κ} (A : Type ℓ) (E : Type κ) : Type (ℓ ⊔ κ) where
  ok : A → Result A E
  err : E → Result A E

infixl 5 ◌>>=◌
abbrev pub ◌>>=◌ {ℓ κ μ} :
    {A : Type ℓ} {B : Type κ} {E : Type μ} → Result A E → (A → Result B E) → Result B E
ok a >>= f = f a
err e >>= f = err e

abbrev pub map_err {ℓ κ μ} :
    {A : Type ℓ} {E : Type κ} {F : Type μ} → (E → F) → Result A E → Result A F
map_err f (ok a) = ok a
map_err f (err e) = err (f e)

abbrev pub IoResult : Type 0 → Type 0
IoResult A = Result A IoError

abbrev pub IoPathResult : Type 0 → Type 0
IoPathResult A = Result A IoPathError

-- `IoPathError::new` and `IoPathError::new_no_path`
abbrev pub error_at : IoError → Bytes → IoPathError
error_at e p = record { error = e; path = some p }

abbrev pub error_no_path : IoError → IoPathError
error_no_path e = record { error = e; path = none }

module _ {A : Type 0} where
  -- `WithPath::with_path` and `WithPath::no_path`
  abbrev pub with_path : IoResult A → Bytes → IoPathResult A
  with_path r p = map_err (λ e. error_at e p) r

  abbrev pub no_path : IoResult A → IoPathResult A
  no_path r = map_err error_no_path r

-- To split on a result and keep the equation.
pub Result-cases {ℓ κ} :
    {A : Type ℓ} {E : Type κ} (r : Result A E) → ((a : A) × (r ≡ ok a)) ⊎ ((e : E) × (r ≡ err e))
Result-cases (ok a) = inl (a, refl)
Result-cases (err e) = inr (e, refl)

pub ok-subst {ℓ κ μ} :
    {A : Type ℓ} {E : Type κ} (P : A → Type μ) {a b : A}
    → ◌≡◌ {A = Result A E} (ok a) (ok b)
    → P a
    → P b
ok-subst {A} {E} P {a} {b} h p = subst holds h p
  where
    holds : Result A E → Type μ
    holds (ok x) = P x
    holds (err e) = P a

pub err-ok {κ μ} :
    {B : Type κ} {E : Type μ} (e : E) (b : B) → ¬ (◌≡◌ {A = Result B E} (err e) (ok b))
err-ok e b h = cc h

-- A result that is carried on is one that was there.
pub bind-ok {ℓ κ μ} :
    {A : Type ℓ} {B : Type κ} {E : Type μ} (r : Result A E) (f : A → Result B E) (b : B)
    → (r >>= f) ≡ ok b
    → (a : A) × (r ≡ ok a) × (f a ≡ ok b)
bind-ok (ok a) f b h = (a, refl, h)
bind-ok (err e) f b h = absurd (err-ok e b h)

pub map_err-ok {ℓ κ μ} :
    {A : Type ℓ} {E : Type κ} {F : Type μ} (f : E → F) (r : Result A E) (a : A)
    → map_err f r ≡ ok a
    → r ≡ ok a
map_err-ok {A} {E} f (ok b) a h = ok-subst (λ x. ◌≡◌ {A = Result A E} (ok b) (ok x)) h refl
map_err-ok f (err e) a h = absurd (err-ok (f e) a h)
