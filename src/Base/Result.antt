-- ===== src/Base/Result.antt =====
-- Calls that may fail, with the error that they return.
use mathlib.Core.Path.{◌≡◌, refl}
use mathlib.Core.Logic.{◌⊎◌, inl, inr}
use mathlib.Core.List.{List, [], ◌∷◌}
use mathlib.Core.Bool.{Bool, true, false}

pub data Result {ℓ κ} (E : Type ℓ) (A : Type κ) : Type (ℓ ⊔ κ) where
  ok : A → Result E A
  err : E → Result E A

infixl 5 ◌>>=◌
abbrev pub ◌>>=◌ {ℓ κ μ} :
    {E : Type ℓ} {A : Type κ} {B : Type μ} → Result E A → (A → Result E B) → Result E B
ok a >>= f = f a
err e >>= f = err e

module _ {ℓ κ μ} {E : Type ℓ} {A : Type κ} {B : Type μ} where
  abbrev pub map_ok : (A → B) → Result E A → Result E B
  map_ok f (ok a) = ok (f a)
  map_ok f (err e) = err e

  -- The calls in order, up to the first that fails.
  unfoldable pub traverse : (A → Result E B) → List A → Result E (List B)
  traverse f [] = ok []
  traverse f (a ∷ as') = do b ← f a; bs ← traverse f as'; ok (b ∷ bs)

pub Result-cases {ℓ κ} :
    {E : Type ℓ} {A : Type κ} (r : Result E A) → ((e : E) × (r ≡ err e)) ⊎ ((a : A) × (r ≡ ok a))
Result-cases (err e) = inl (e, refl)
Result-cases (ok a) = inr (a, refl)

-- Calls without a result.
abbrev pub Check {ℓ} : Type ℓ → Type ℓ
Check E = Result E (Unit {0})

module _ {ℓ} {E : Type ℓ} where
  infixl 5 ◌>>◌
  abbrev pub ◌>>◌ {κ} : {B : Type κ} → Check E → Result E B → Result E B
  m >> k = m >>= λ _. k

  -- The error, unless the test holds.
  abbrev pub guard : Bool → E → Check E
  guard true e = ok tt
  guard false e = err e

  unfoldable pub each {κ} : {A : Type κ} → (A → Check E) → List A → Check E
  each f [] = ok tt
  each f (a ∷ as') = do f a; each f as'

  pub >>-eq-ok {κ} :
      {B : Type κ} (m : Check E) (k : Result E B) (b : B)
      → (m >> k) ≡ ok b
      → (m ≡ ok tt) × (k ≡ ok b)
  >>-eq-ok (ok tt) k b h = (refl, h)
  >>-eq-ok (err e) k b h = cc

  pub guard-eq-ok : (c : Bool) (e : E) → guard c e ≡ ok tt → c ≡ true
  guard-eq-ok true e h = refl
  guard-eq-ok false e h = cc

pub >>=-eq-ok {ℓ κ μ} :
    {E : Type ℓ} {A : Type κ} {B : Type μ} (m : Result E A) (k : A → Result E B) (b : B)
    → (m >>= k) ≡ ok b
    → (a : A) × (m ≡ ok a) × (k a ≡ ok b)
>>=-eq-ok (ok a) k b h = (a, refl, h)
>>=-eq-ok (err e) k b h = cc
