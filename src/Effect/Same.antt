-- ===== src/Effect/Same.antt =====
-- When two actions do the same from a state on.
use actionsspot.Prelude.{◌≡◌, refl, Bool, true, false, if◌then◌else◌}
use actionsspot.Effect
use actionsspot.Effect.{History, Result, ok, err, crash, Exec, ◌>>=◌}

pub same_bind :
    {A B : Type 0} (m : Exec History A) (f g : A → Exec History B) (h : History)
    → ((a : A) (t : History) → f a t ≡ g a t)
    → (m >>= f) h ≡ (m >>= g) h
unfolding ◌>>=◌
same_bind {A} {B} m f g h same = of_result (m h).0 (m h).1
  where
    of_result : (r : Result A) (t : History) → Effect.continue r f t ≡ Effect.continue r g t
    of_result (ok a) t = same a t
    of_result (err e) t = refl
    of_result (crash x) t = refl

pub same_else :
    {A : Type 0} (b : Bool) (m k₁ k₂ : Exec History A) (h : History)
    → (b ≡ false → k₁ h ≡ k₂ h)
    → (if b then m else k₁) h ≡ (if b then m else k₂) h
same_else true m k₁ k₂ h same = refl
same_else false m k₁ k₂ h same = same refl
