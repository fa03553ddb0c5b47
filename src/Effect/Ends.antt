-- ===== src/Effect/Ends.antt =====
-- What holds of the value that an action returns together with the events up to then.
use actionsspot.Prelude.{String, Bool, true, false, if◌then◌else◌}
use actionsspot.Effect
use actionsspot.Effect.{
  History, Error, Result, ok, err, crash, Exec, pure, fail, lift, wrapped, wrap_result, ◌>>=◌,
}
use actionsspot.Effect.Returns.{OfValue, Returns}

-- `Q` of the value and the events, where there is a value.
abbrev pub OfEnd : {A : Type 0} → (A → History → Type 0) → Result A × History → Type 0
OfEnd Q (r, h) = OfValue (λ a. Q a h) r

pub record Ends {A : Type 0} (Q : A → History → Type 0) (m : Exec History A) : Type 0 where
  pub at : (h : History) → OfEnd Q (m h)

module _ {A : Type 0} (Q : A → History → Type 0) where
  pub Ends-pure : (a : A) → ((h : History) → Q a h) → Ends Q (pure a)
  unfolding pure
  Ends-pure a q = record { at = q }

  pub Ends-fail : (e : Error) → Ends Q (fail e)
  unfolding fail
  Ends-fail e = record { at = λ h. tt }

  pub Ends-lift : (r : Result A) → ((h : History) → OfEnd Q (r, h)) → Ends Q (lift r)
  unfolding lift
  Ends-lift r q = record { at = q }

  pub Ends-if :
      (b : Bool) (m n : Exec History A) → Ends Q m → Ends Q n → Ends Q (if b then m else n)
  Ends-if true m n em en = em
  Ends-if false m n em en = en

  pub Ends-wrapped : (what : String) (m : Exec History A) → Ends Q m → Ends Q (wrapped what m)
  unfolding wrapped
  Ends-wrapped what m em = record { at = λ h. same_value (m h).0 (m h).1 (em.at h) }
    where
      same_value : (r : Result A) (t : History) → OfEnd Q (r, t) → OfEnd Q (wrap_result what r, t)
      same_value (ok a) t q = q
      same_value (err e) t q = tt
      same_value (crash x) t q = tt

  -- What follows may use what holds of the first value and the events up to it.
  pub Ends-then :
      {B : Type 0} (P : B → History → Type 0) (m : Exec History B) (f : B → Exec History A)
      → Ends P m
      → ((b : B) (t : History) → P b t → OfEnd Q (f b t))
      → Ends Q (m >>= f)
  unfolding ◌>>=◌
  Ends-then {B} P m f em ef = record { at = λ h. next (m h).0 (m h).1 (em.at h) }
    where
      next : (r : Result B) (t : History) → OfEnd P (r, t) → OfEnd Q (Effect.continue r f t)
      next (ok b) t p = ef b t p
      next (err e) t p = tt
      next (crash x) t p = tt

  pub Ends-bind :
      {B : Type 0} (P : B → Type 0) (m : Exec History B) (f : B → Exec History A)
      → Returns P m
      → ((b : B) → P b → Ends Q (f b))
      → Ends Q (m >>= f)
  Ends-bind P m f rm ef =
      Ends-then (λ b t. P b) m f (record { at = rm.value }) λ b t p. (ef b p).at t
