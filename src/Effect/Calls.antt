-- ===== src/Effect/Calls.antt =====
-- How much an action does at most, whatever is answered: each external call has a weight, and there
-- is one rule for each way to build an action.
use actionsspot.Prelude.{ℕ, ◌+◌, ◌≤◌, String, arith, [], ◌∷◌, Bool, true, false, if◌then◌else◌}
use actionsspot.Effect
use actionsspot.Effect.{
  Request, History, Env, Reply, broken, replied, Error, Result, ok, err, crash, Exec, pure, fail,
  lift, wrapped, attempt, ◌>>=◌, do_request, http, Event,
}

-- What the events weigh together.
abbrev pub weight : (Event → ℕ) → History → ℕ
weight w [] = 0
weight w (e ∷ h) = w e + weight w h

pub record Calls {A : Type 0} (w : Event → ℕ) (n : ℕ) (m : Exec History A) : Type 0 where
  pub most : (h : History) → weight w (m h).1 ≤ weight w h + n

module _ {w : Event → ℕ} {A : Type 0} where
  pub Calls-lift : (r : Result A) → Calls w 0 (lift r)
  unfolding lift
  Calls-lift r = record { most = λ h. omega arith }

  pub Calls-pure : (a : A) (n : ℕ) → Calls w n (pure a)
  unfolding pure
  Calls-pure a n = record { most = λ h. omega arith }

  pub Calls-fail : (e : Error) (n : ℕ) → Calls {A = A} w n (fail e)
  unfolding fail
  Calls-fail e n = record { most = λ h. omega arith }

  pub Calls-wrapped :
      (what : String) (m : Exec History A) (n : ℕ) → Calls w n m → Calls w n (wrapped what m)
  unfolding wrapped
  Calls-wrapped what m n c = record { most = λ h. c.most h }

  pub Calls-attempt : (m : Exec History A) (n : ℕ) → Calls w n m → Calls w n (attempt m)
  unfolding attempt
  Calls-attempt m n c = record { most = λ h. c.most h }

  pub Calls-if :
      (b : Bool) {m k : Exec History A} {n : ℕ}
      → Calls w n m
      → Calls w n k
      → Calls w n (if b then m else k)
  Calls-if true cm ck = cm
  Calls-if false cm ck = ck

module _ {w : Event → ℕ} {A B : Type 0} where
  pub Calls-bind :
      (m : Exec History A) (f : A → Exec History B) (n k : ℕ)
      → Calls w n m
      → ((a : A) → Calls w k (f a))
      → Calls w (n + k) (m >>= f)
  unfolding ◌>>=◌
  Calls-bind m f n k cm cf = record { most = λ h. go (m h).0 (m h).1 h (cm.most h) }
    where
      go :
          (r : Result A) (t h : History)
          → weight w t ≤ weight w h + n
          → weight w (Effect.continue r f t).1 ≤ weight w h + (n + k)
      go (ok a) t h le = omega (arith, (cf a).most t)
      go (err e) t h le = omega arith
      go (crash x) t h le = omega arith

pub Calls-do_request :
    (w : Event → ℕ) (n : ℕ) (env : Env) (req : Request)
    → w (http req) ≤ n
    → Calls w n (do_request env req)
unfolding do_request
Calls-do_request w n env req le = record { most = λ h. omega arith }
