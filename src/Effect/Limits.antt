-- ===== src/Effect/Limits.antt =====
-- Bounds on what an action does that depend on what an earlier one returned.
use actionsspot.Prelude.{ℕ, ◌+◌, ◌≤◌, String, Bool, true, false, if◌then◌else◌, arith}
use actionsspot.Effect
use actionsspot.Effect.{
  History, Error, Result, ok, err, crash, Exec, Event, pure, fail, lift, wrapped, wrap_result,
  attempt, attempt_result, ◌>>=◌,
}
use actionsspot.Effect.Calls.{
  weight, Calls, Calls-bind, Calls-lift, Calls-wrapped, Calls-attempt, Calls-pure, Calls-fail,
  Calls-if,
}
use actionsspot.Effect.Returns.{OfValue, Returns}

module _ {w : Event → ℕ} {A : Type 0} where
  pub Calls-le : (m : Exec History A) (n k : ℕ) → n ≤ k → Calls w n m → Calls w k m
  Calls-le m n k le c = record { most = λ h. omega (arith, c.most h) }

  -- The rules for what weighs nothing.
  pub Free-pure : (a : A) → Calls w 0 (pure a)
  Free-pure a = Calls-pure a 0

  pub Free-fail : (e : Error) → Calls {A = A} w 0 (fail e)
  Free-fail e = Calls-fail e 0

  pub Free-wrapped : (what : String) (m : Exec History A) → Calls w 0 m → Calls w 0 (wrapped what m)
  Free-wrapped what m c = Calls-wrapped what m 0 c

  pub Free-attempt : (m : Exec History A) → Calls w 0 m → Calls w 0 (attempt m)
  Free-attempt m c = Calls-attempt m 0 c

  pub Free-if :
      (b : Bool) (m k : Exec History A) → Calls w 0 m → Calls w 0 k → Calls w 0 (if b then m else k)
  Free-if true m k cm ck = cm
  Free-if false m k cm ck = ck

module _ {w : Event → ℕ} {A B : Type 0} where
  pub Free-bind :
      (m : Exec History A) (f : A → Exec History B)
      → Calls w 0 m
      → ((a : A) → Calls w 0 (f a))
      → Calls w 0 (m >>= f)
  Free-bind m f cm cf = Calls-bind m f 0 0 cm cf

  -- What follows may do as much as the value allows.
  pub Calls-after :
      (P : A → Type 0) (m : Exec History A) (f : A → Exec History B) (n : ℕ)
      → Returns P m
      → Calls w 0 m
      → ((a : A) → P a → Calls w n (f a))
      → Calls w n (m >>= f)
  unfolding ◌>>=◌
  Calls-after P m f n rm cm cf = record {
    most = λ h. of_result (m h).0 (m h).1 h (rm.value h) (cm.most h);
  }
    where
      of_result :
          (r : Result A) (t h : History)
          → OfValue P r
          → weight w t ≤ weight w h + 0
          → weight w (Effect.continue r f t).1 ≤ weight w h + n
      of_result (ok a) t h p le = omega (arith, (cf a p).most t)
      of_result (err e) t h p le = omega arith
      of_result (crash x) t h p le = omega arith

pub ruleset free_rules =
    (Free-pure, Free-fail, Calls-lift, Free-wrapped, Free-attempt, Free-if, Free-bind)

module _ {A : Type 0} (P : A → Type 0) where
  attempted : (r : Result A) → OfValue P r → OfValue (OfValue P) (attempt_result r)
  attempted (ok a) p = p
  attempted (err e) p = tt
  attempted (crash m) p = tt

  pub Returns-attempt : (m : Exec History A) → Returns P m → Returns (OfValue P) (attempt m)
  unfolding attempt
  Returns-attempt m r = record { value = λ h. attempted (m h).0 (r.value h) }

  same_value : (what : String) (r : Result A) → OfValue P r → OfValue P (wrap_result what r)
  same_value what (ok a) p = p
  same_value what (err e) p = tt
  same_value what (crash m) p = tt

  pub Returns-wrapped :
      (what : String) (m : Exec History A) → Returns P m → Returns P (wrapped what m)
  unfolding wrapped
  Returns-wrapped what m r = record { value = λ h. same_value what (m h).0 (r.value h) }
