-- ===== src/Ghaec2/Scaler/Keeps.antt =====
-- Predicates on the scaler's state that an action keeps, whether it returns, fails or panics: one
-- rule for each way to build an action.
use actionsspot.Prelude.{String, Bool, true, false, Option, none, some, if◌then◌else◌}
use actionsspot.Effect.{
  History, Error, Result, ok, err, crash, Exec, pure, fail, lift, wrapped, attempt, ◌>>=◌,
}
use actionsspot.Effect
use actionsspot.Ghaec2.Scaler.{Scaler, gets, deref}

pub record Maintains {A : Type 0} (P : Scaler → Type 0) (m : Exec Scaler A) : Type 0 where
  pub at : (s : Scaler) → P s → P (m s).1

module _ {A : Type 0} {P : Scaler → Type 0} where
  pub Maintains-wrapped :
      (msg : String) (m : Exec Scaler A) → Maintains P m → Maintains P (wrapped msg m)
  unfolding wrapped
  Maintains-wrapped msg m k = record { at = λ s h. k.at s h }

  pub Maintains-attempt : (m : Exec Scaler A) → Maintains P m → Maintains P (attempt m)
  unfolding attempt
  Maintains-attempt m k = record { at = λ s h. k.at s h }

  pub Maintains-deref : (o : Option A) → Maintains P (deref o)
  unfolding deref
  Maintains-deref none = record { at = λ s held. held }
  Maintains-deref (some a) = record { at = λ s held. held }

  pub Maintains-lift : (r : Result A) → Maintains P (lift r)
  unfolding lift
  Maintains-lift r = record { at = λ s held. held }

  pub Maintains-fail : (e : Error) → Maintains {A = A} P (fail e)
  unfolding fail
  Maintains-fail e = record { at = λ s held. held }

  pub Maintains-gets : (part : Scaler → A) → Maintains P (gets part)
  unfolding gets
  Maintains-gets part = record { at = λ s held. held }

  pub Maintains-pure : (a : A) → Maintains P (pure a)
  unfolding pure
  Maintains-pure a = record { at = λ s held. held }

  pub Maintains-if :
      (b : Bool) (m n : Exec Scaler A)
      → Maintains P m
      → Maintains P n
      → Maintains P (if b then m else n)
  Maintains-if true m n km kn = km
  Maintains-if false m n km kn = kn

module _ {A B : Type 0} {P : Scaler → Type 0} where
  pub Maintains-bind :
      (m : Exec Scaler A) (f : A → Exec Scaler B)
      → Maintains P m
      → ((a : A) → Maintains P (f a))
      → Maintains P (m >>= f)
  unfolding ◌>>=◌
  Maintains-bind m f km kf = record { at = λ s h. let (r, s') = m s in go r s' (km.at s h) }
    where
      go : (r : Result A) (s : Scaler) → P s → P (Effect.continue r f s).1
      go (ok a) s h = (kf a).at s h
      go (err e) s h = h
      go (crash m) s h = h

pub ruleset keeps_rules = (
  Maintains-pure, Maintains-fail, Maintains-lift, Maintains-gets, Maintains-deref,
  Maintains-wrapped, Maintains-attempt, Maintains-if, Maintains-bind,
)
