-- ===== src/Prelude/Results.antt =====
-- What a Go call does: it returns, it returns an error, or it panics.
use mathlib.Core.Path.{◌≡◌, refl}
use mathlib.Core.Logic.{◌⊎◌, inl, inr}

pub data Result (E A : Type 0) : Type 0 where
  ok : A → Result E A
  err : E → Result E A
  panic : Result E A

infixl 5 ◌>>=◌
abbrev pub ◌>>=◌ : {E A B : Type 0} → Result E A → (A → Result E B) → Result E B
ok a >>= f = f a
err e >>= f = err e
panic >>= f = panic

pub >>=-ok :
    {E A B : Type 0} (m : Result E A) (f : A → Result E B) {a : A} → m ≡ ok a → (m >>= f) ≡ f a
>>=-ok m f h = rw h

pub Result-cases :
    {E A : Type 0} (r : Result E A)
    → ((a : A) × (r ≡ ok a)) ⊎ (((e : E) × (r ≡ err e)) ⊎ (r ≡ panic))
Result-cases (ok a) = inl (a, refl)
Result-cases (err e) = inr (inl (e, refl))
Result-cases panic = inr (inr refl)
