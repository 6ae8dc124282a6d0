-- ===== src/Common/Outcome.antt =====
-- Rust's `Result<A, E>`, and the chaining of fallible steps.
use mathlib.Core.Path.{◌≡◌, refl}
use mathlib.Core.Bool.{Bool, true, false}
use mathlib.Core.Logic.{◌⊎◌, inl, inr}

pub data Result {ℓ} (E A : Type ℓ) : Type ℓ where
  err : E → Result E A
  ok : A → Result E A

-- `result?` followed by the rest of the function.
abbrev pub ◌>>=◌ {ℓ} : {E A B : Type ℓ} → Result E A → (A → Result E B) → Result E B
err problem >>= rest = err problem
ok value >>= rest = rest value

-- The same where the value is `()`.
abbrev pub ◌>>◌ {ℓ} : {E B : Type ℓ} → Result E (Unit {ℓ}) → Result E B → Result E B
done >> rest = done >>= λ _. rest

infixl 5 ◌>>=◌ ◌>>◌
-- The early return: `if bad { return Err(e) }`.
abbrev pub fail_if : {E : Type 0} → Bool → E → Result E (Unit {0})
fail_if true e = err e
fail_if false e = ok tt

-- If the whole returns, so did its first part, and the rest on the value of that.
pub >>=-eq-ok {ℓ} :
    {E A B : Type ℓ} (first : Result E A) (rest : A → Result E B) {result : B}
    → (first >>= rest) ≡ ok result
    → (value : A) × (first ≡ ok value) × (rest value ≡ ok result)
>>=-eq-ok (err problem) rest h = cc
>>=-eq-ok (ok value) rest h = (value, refl, h)

pub Result-cases {ℓ} :
    {E A : Type ℓ} (r : Result E A) → ((a : A) × (r ≡ ok a)) ⊎ ((e : E) × (r ≡ err e))
Result-cases (ok a) = inl (a, refl)
Result-cases (err e) = inr (e, refl)

pub ok-injective {ℓ} : {E A : Type ℓ} (r : Result E A) {a b : A} → r ≡ ok a → r ≡ ok b → a ≡ b
ok-injective r h k = cc

-- Code that returns has passed its guard.
pub fail_if-eq-ok :
    {E A : Type 0} (b : Bool) (e : E) (rest : Result E A) {a : A}
    → (fail_if b e >>= λ _. rest) ≡ ok a
    → (b ≡ false) × (rest ≡ ok a)
fail_if-eq-ok true e rest h = cc
fail_if-eq-ok false e rest h = (refl, h)
