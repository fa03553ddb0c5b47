-- ===== src/Effect/Returns.antt =====
-- What holds of the value that an action returns, whatever is answered: one rule for each way to
-- build an action.
use actionsspot.Prelude.{Bool, true, false, if◌then◌else◌}
use actionsspot.Effect
use actionsspot.Effect.{History, Error, Result, ok, err, crash, Exec, pure, fail, lift, ◌>>=◌}

-- `P` of the value, where there is one.
abbrev pub OfValue : {A : Type 0} → (A → Type 0) → Result A → Type 0
OfValue P (ok a) = P a
OfValue P (err e) = Unit
OfValue P (crash m) = Unit

pub record Returns {A : Type 0} (P : A → Type 0) (m : Exec History A) : Type 0 where
  pub value : (h : History) → OfValue P (m h).0

module _ {A : Type 0} (P : A → Type 0) where
  pub Returns-pure : (a : A) → P a → Returns P (pure a)
  unfolding pure
  Returns-pure a p = record { value = λ h. p }

  pub Returns-fail : (e : Error) → Returns P (fail e)
  unfolding fail
  Returns-fail e = record { value = λ h. tt }

  pub Returns-lift : (r : Result A) → OfValue P r → Returns P (lift r)
  unfolding lift
  Returns-lift r p = record { value = λ h. p }

  pub Returns-if :
      (b : Bool) {m n : Exec History A} → Returns P m → Returns P n → Returns P (if b then m else n)
  Returns-if true rm rn = rm
  Returns-if false rm rn = rn

  pub Returns-bind :
      {B : Type 0} (Q : B → Type 0) (m : Exec History B) (f : B → Exec History A)
      → Returns Q m
      → ((b : B) → Q b → Returns P (f b))
      → Returns P (m >>= f)
  unfolding ◌>>=◌
  Returns-bind {B} Q m f rm rf = record { value = λ h. next (m h).0 (m h).1 (rm.value h) }
    where
      next : (r : Result B) (t : History) → OfValue Q r → OfValue P (Effect.continue r f t).0
      next (ok b) t q = (rf b q).value t
      next (err e) t q = tt
      next (crash x) t q = tt

-- Nothing is asked of the value.
pub Returns-any : {A : Type 0} (m : Exec History A) → Returns (λ a. Unit {0}) m
Returns-any {A} m = record { value = λ h. any_value (m h).0 }
  where
    any_value : (r : Result A) → OfValue (λ a. Unit {0}) r
    any_value (ok a) = tt
    any_value (err e) = tt
    any_value (crash x) = tt
