-- ===== src/Prelude/Results.antt =====
-- A Go pair `(value, error)` of which exactly one part is meant.
use mathlib.Core.Path.{◌≡◌, refl}
use mathlib.Core.Logic.{◌⊎◌, inl, inr}
use mathlib.Core.Option.{Option, none, some}

pub data Result {ℓ κ} (E : Type ℓ) (A : Type κ) : Type (ℓ ⊔ κ) where
  ok : A → Result E A
  err : E → Result E A

infixl 5 ◌>>=◌ ◌>>◌
abbrev pub ◌>>=◌ {ℓ κ μ} :
    {E : Type ℓ} {A : Type κ} {B : Type μ} → Result E A → (A → Result E B) → Result E B
ok a >>= f = f a
err e >>= f = err e

abbrev pub ◌>>◌ {ℓ κ μ} :
    {E : Type ℓ} {A : Type κ} {B : Type μ} → Result E A → Result E B → Result E B
m >> k = m >>= λ _. k

-- A check that returns `nil` or an error, as a step of a chain.
abbrev pub check {ℓ} : {E : Type ℓ} → Option E → Result E (Unit {0})
check none = ok tt
check (some e) = err e

abbrev pub map_err {ℓ κ μ} :
    {E : Type ℓ} {F : Type κ} {A : Type μ} → (E → F) → Result E A → Result F A
map_err f (ok a) = ok a
map_err f (err e) = err (f e)

module _ {ℓ κ} {E : Type ℓ} {A : Type κ} where
  pub Result-cases : (r : Result E A) → ((a : A) × (r ≡ ok a)) ⊎ ((e : E) × (r ≡ err e))
  Result-cases (ok a) = inl (a, refl)
  Result-cases (err e) = inr (e, refl)

pub ok-injective {ℓ κ} :
    {E : Type ℓ} {A : Type κ} {a b : A} → ◌≡◌ {A = Result E A} (ok a) (ok b) → a ≡ b
ok-injective h = cc

module _ {ℓ κ μ} {E : Type ℓ} {A : Type κ} {B : Type μ} where
  -- A chain that succeeds has a first step that succeeds, and goes on from its value.
  pub bind-ok :
      (m : Result E A) (f : A → Result E B) {b : B}
      → (m >>= f) ≡ ok b
      → (a : A) × (m ≡ ok a) × (f a ≡ ok b)
  bind-ok (ok a) f h = (a, refl, h)
  bind-ok (err e) f h = cc

  pub map_err-ok : (g : E → B) (r : Result E A) {a : A} → map_err g r ≡ ok a → r ≡ ok a
  map_err-ok g (ok a) h = cc
  map_err-ok g (err e) h = cc

module _ {ℓ κ} {E : Type ℓ} {A B X Y P : Type κ} where
  -- A chain of four steps that succeeds: each step's value, and the result that they make.
  pub chain-ok :
      (m₁ : Result E A) (m₂ : A → Result E B) (m₃ : B → Result E X) (m₄ : B → Result E Y)
      (make : B → X → Y → P) {p : P}
      → (do a ← m₁; b ← m₂ a; x ← m₃ b; y ← m₄ b; ok (make b x y)) ≡ ok p
      → (a : A) × (b : B) × (x : X) × (y : Y) × (m₁ ≡ ok a)
        × (m₂ a ≡ ok b)
        × (m₃ b ≡ ok x)
        × (m₄ b ≡ ok y)
        × (make b x y ≡ p)
  chain-ok m₁ m₂ m₃ m₄ make h =
      let (a, e₁, k₁) =
        bind-ok m₁ (λ a. m₂ a >>= λ b. m₃ b >>= λ x. m₄ b >>= λ y. ok (make b x y)) h in
      let (b, e₂, k₂) = bind-ok (m₂ a) (λ b. m₃ b >>= λ x. m₄ b >>= λ y. ok (make b x y)) k₁ in
      let (x, e₃, k₃) = bind-ok (m₃ b) (λ x. m₄ b >>= λ y. ok (make b x y)) k₂ in
      let (y, e₄, k₄) = bind-ok (m₄ b) (λ y. ok (make b x y)) k₃ in
      (a, b, x, y, e₁, e₂, e₃, e₄, ok-injective k₄)
