-- ===== src/Base/Results.antt =====
-- The outcome of code that may end the process.
use mathlib.Core.Path.{◌≡◌, refl, ap, ◌∙◌}
use mathlib.Core.Logic.{◌⊎◌, inl, inr}
use mathlib.Core.Option.{Option, none, some}

-- `panic` stands for `LOG(FATAL)`, `UNREACHABLE()`, a failed `CHECK`, and for what C++ leaves
-- undefined, such as a read out of bounds.
pub data Result {ℓ} (A : Type ℓ) : Type ℓ where
  ok : A → Result A
  panic : Result A

module _ {ℓ κ} {A : Type ℓ} {B : Type κ} where
  infixl 5 ◌>>=◌
  abbrev pub ◌>>=◌ : Result A → (A → Result B) → Result B
  panic >>= next = panic
  ok a >>= next = next a

  -- Inversion of a successful bind.
  pub >>=-eq-ok :
      (m : Result A) (next : A → Result B) {b : B}
      → (m >>= next) ≡ ok b
      → (a : A) × (m ≡ ok a) × (next a ≡ ok b)
  >>=-eq-ok panic next h = cc
  >>=-eq-ok (ok a) next h = (a, refl, h)

-- A read that must succeed.
abbrev pub expect {ℓ} : {A : Type ℓ} → Option A → Result A
expect none = panic
expect (some a) = ok a

pub >>=-of-ok {ℓ κ} :
    {A : Type ℓ} {B : Type κ} (m : Result A) (f : A → Result B) {a : A} {b : B}
    → m ≡ ok a
    → f a ≡ ok b
    → (m >>= f) ≡ ok b
>>=-of-ok m f e h = ap (λ m. m >>= f) e ∙ h

pub expect-eq-ok {ℓ} : {A : Type ℓ} (o : Option A) {a : A} → expect o ≡ ok a → o ≡ some a
expect-eq-ok none h = cc
expect-eq-ok (some b) h = cc

pub ok-injective {ℓ} : {A : Type ℓ} {a b : A} → ok a ≡ ok b → a ≡ b
ok-injective h = cc

pub some-injective {ℓ} : {A : Type ℓ} {a b : A} → some a ≡ some b → a ≡ b
some-injective h = cc

-- To split on a computed outcome and keep the equation.
pub Result-cases {ℓ} : {A : Type ℓ} (m : Result A) → ((a : A) × (m ≡ ok a)) ⊎ (m ≡ panic)
Result-cases (ok a) = inl (a, refl)
Result-cases panic = inr refl
