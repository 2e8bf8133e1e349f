-- ===== src/Prelude/Outcome.antt =====
-- Rust's `Result<A, E>`, with `?` as bind and `map_err`.
use mathlib.Core.Path.{◌≡◌, refl}
use mathlib.Core.Logic.{◌⊎◌, inl, inr}
use mathlib.Core.Option.{Option, none, some}

pub data Result {ℓ} (A E : Type ℓ) : Type ℓ where
  ok : A → Result A E
  err : E → Result A E

infixl 5 ◌>>=◌ ◌>>◌
abbrev pub ◌>>=◌ {ℓ} : {A B E : Type ℓ} → Result A E → (A → Result B E) → Result B E
ok x >>= next = next x
err failure >>= next = err failure

abbrev pub ◌>>◌ {ℓ} : {A B E : Type ℓ} → Result A E → Result B E → Result B E
first >> second = first >>= λ _. second

abbrev pub map_err {ℓ} : {A E F : Type ℓ} → (E → F) → Result A E → Result A F
map_err f (ok a) = ok a
map_err f (err e) = err (f e)

-- `Option::ok_or`
abbrev pub ok_or {ℓ} : {A E : Type ℓ} → Option A → E → Result A E
ok_or none e = err e
ok_or (some a) e = ok a

-- `Result::ok`
abbrev pub to_option {ℓ} : {A E : Type ℓ} → Result A E → Option A
to_option (ok a) = some a
to_option (err e) = none

-- `Option<Result>::transpose`
abbrev pub transpose {ℓ} : {A E : Type ℓ} → Option (Result A E) → Result (Option A) E
transpose none = ok none
transpose (some (ok a)) = ok (some a)
transpose (some (err e)) = err e

pub >>=-eq-ok {ℓ} :
    {A B E : Type ℓ} (r : Result A E) (next : A → Result B E) {y : B}
    → (r >>= next) ≡ ok y
    → (x : A) × (r ≡ ok x) × (next x ≡ ok y)
>>=-eq-ok (err failure) next same = cc
>>=-eq-ok (ok x) next same = (x, refl, same)

-- The same for a chain that begins with `ok_or`.
pub ok_or-bind-eq_ok {ℓ} :
    {A B E : Type ℓ} (o : Option A) (e : E) (f : A → Result B E) {b : B}
    → (ok_or o e >>= f) ≡ ok b
    → (a : A) × (o ≡ some a) × (f a ≡ ok b)
ok_or-bind-eq_ok none e f h = cc
ok_or-bind-eq_ok (some a) e f h = (a, refl, h)

-- To split on a result and keep the equation.
pub Result-cases {ℓ} :
    {A E : Type ℓ} (r : Result A E) → ((a : A) × (r ≡ ok a)) ⊎ ((e : E) × (r ≡ err e))
Result-cases (ok a) = inl (a, refl)
Result-cases (err e) = inr (e, refl)

pub ok-injective {ℓ} : {A E : Type ℓ} {a b : A} → ◌≡◌ {A = Result A E} (ok a) (ok b) → a ≡ b
ok-injective h = cc

pub map_err-ok {ℓ} :
    {A E F : Type ℓ} (f : E → F) (r : Result A E) {a : A} → map_err f r ≡ ok a → r ≡ ok a
map_err-ok f (ok b) h = cc (ok-injective h)
map_err-ok f (err e) h = cc h
