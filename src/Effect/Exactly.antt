-- ===== src/Effect/Exactly.antt =====
-- Actions whose calls weigh the same whatever is answered, and actions that do not panic.
use actionsspot.Prelude.{ℕ, ◌+◌, String, ◌≡◌, refl, arith}
use actionsspot.Effect
use actionsspot.Effect.{
  Request, History, Env, Error, Result, ok, err, crash, Exec, pure, fail, lift, wrapped, attempt,
  attempt_result, wrap_result, ◌>>=◌, do_request, http, Event,
}
use actionsspot.Effect.Calls.{weight, Calls}

pub record Exactly {A : Type 0} (w : Event → ℕ) (n : ℕ) (m : Exec History A) : Type 0 where
  pub weighs : (h : History) → weight w (m h).1 ≡ weight w h + n

module _ {w : Event → ℕ} {A : Type 0} where
  pub Exactly-lift : (r : Result A) → Exactly w 0 (lift r)
  unfolding lift
  Exactly-lift r = record { weighs = λ h. omega arith }

  pub Exactly-pure : (a : A) → Exactly w 0 (pure a)
  unfolding pure
  Exactly-pure a = record { weighs = λ h. omega arith }

  pub Exactly-fail : (e : Error) → Exactly {A = A} w 0 (fail e)
  unfolding fail
  Exactly-fail e = record { weighs = λ h. omega arith }

  pub Exactly-wrapped :
      (what : String) (m : Exec History A) (n : ℕ) → Exactly w n m → Exactly w n (wrapped what m)
  unfolding wrapped
  Exactly-wrapped what m n c = record { weighs = λ h. c.weighs h }

  pub Exactly-attempt : (m : Exec History A) (n : ℕ) → Exactly w n m → Exactly w n (attempt m)
  unfolding attempt
  Exactly-attempt m n c = record { weighs = λ h. c.weighs h }

pub Exactly-Calls :
    {w : Event → ℕ} {A : Type 0} (m : Exec History A) (n : ℕ) → Exactly w n m → Calls w n m
Exactly-Calls m n e = record { most = λ h. omega (arith, e.weighs h) }

module _ {w : Event → ℕ} {A B : Type 0} where
  -- What comes later weighs nothing.
  pub Exactly-first :
      (m : Exec History A) (f : A → Exec History B) (n : ℕ)
      → Exactly w n m
      → ((a : A) → Exactly w 0 (f a))
      → Exactly w n (m >>= f)
  unfolding ◌>>=◌
  Exactly-first m f n cm cf = record { weighs = λ h. of_result (m h).0 (m h).1 h (cm.weighs h) }
    where
      of_result :
          (r : Result A) (t h : History)
          → weight w t ≡ weight w h + n
          → weight w (Effect.continue r f t).1 ≡ weight w h + n
      of_result (ok a) t h e = omega (arith, (cf a).weighs t)
      of_result (err x) t h e = e
      of_result (crash x) t h e = e

pub Exactly-do_request :
    (w : Event → ℕ) (env : Env) (req : Request)
    → w (http req) ≡ 0
    → Exactly w 0 (do_request env req)
unfolding do_request
Exactly-do_request w env req e = record { weighs = λ h. omega arith }

abbrev pub NoPanic : {A : Type 0} → Result A → Type 0
NoPanic (ok a) = Unit
NoPanic (err e) = Unit
NoPanic (crash m) = ⊥

pub record Calm {A : Type 0} (m : Exec History A) : Type 0 where
  pub calm : (h : History) → NoPanic (m h).0

module _ {A : Type 0} where
  pub Calm-pure : (a : A) → Calm (pure a)
  unfolding pure
  Calm-pure a = record { calm = λ h. tt }

  pub Calm-fail : (e : Error) → Calm {A = A} (fail e)
  unfolding fail
  Calm-fail e = record { calm = λ h. tt }

  wrap_result-NoPanic : (what : String) (r : Result A) → NoPanic r → NoPanic (wrap_result what r)
  wrap_result-NoPanic what (ok a) k = tt
  wrap_result-NoPanic what (err e) k = tt
  wrap_result-NoPanic what (crash m) k = k

  pub Calm-wrapped : (what : String) (m : Exec History A) → Calm m → Calm (wrapped what m)
  unfolding wrapped
  Calm-wrapped what m c = record { calm = λ h. wrap_result-NoPanic what (m h).0 (c.calm h) }

  pub attempted : (r : Result A) → NoPanic r → attempt_result r ≡ ok r
  attempted (ok a) k = refl
  attempted (err e) k = refl
  attempted (crash m) k = absurd k

  -- An action that does not panic, tried, gives its result to what follows.
  pub attempt_lem :
      (m : Exec History A) → Calm m → (h : History) → attempt m h ≡ (ok (m h).0, (m h).1)
  unfolding attempt
  attempt_lem m c h = rw (attempted (m h).0 (c.calm h)) refl

module _ {A B : Type 0} where
  pub Calm-bind :
      (m : Exec History A) (f : A → Exec History B)
      → Calm m
      → ((a : A) → Calm (f a))
      → Calm (m >>= f)
  unfolding ◌>>=◌
  Calm-bind m f cm cf = record { calm = λ h. of_result (m h).0 (m h).1 (cm.calm h) }
    where
      of_result : (r : Result A) (t : History) → NoPanic r → NoPanic (Effect.continue r f t).0
      of_result (ok a) t k = (cf a).calm t
      of_result (err e) t k = tt
      of_result (crash x) t k = k

pub after_attempt :
    {A B : Type 0} (m : Exec History A) (f : Result A → Exec History B)
    → Calm m
    → (h : History) → (attempt m >>= f) h ≡ f (m h).0 (m h).1
unfolding ◌>>=◌ attempt
after_attempt m f c h = rw (attempted (m h).0 (c.calm h)) refl

pub Calm-attempt : {A : Type 0} (m : Exec History A) → Calm m → Calm (attempt m)
Calm-attempt m c = record { calm = λ h. rw (attempt_lem m c h) tt }
