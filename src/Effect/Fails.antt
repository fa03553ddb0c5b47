-- ===== src/Effect/Fails.antt =====
-- Actions that never return a value, and how a process ends by what its main action returns.
use actionsspot.Prelude.{ℕ, String, ◌≡◌, ◌≢◌, refl}
use actionsspot.Effect
use actionsspot.Effect.{History, Error, Result, ok, err, crash, Exec, fail, ◌>>=◌}

abbrev pub IsValue {ℓ} : {A : Type ℓ} → Result A → Type 0
IsValue (ok a) = Unit
IsValue (err e) = ⊥
IsValue (crash m) = ⊥

pub record Fails {S A : Type 0} (m : Exec S A) : Type 0 where
  pub never : (s : S) → ¬ IsValue (m s).0

pub Fails-fail : {S A : Type 0} (e : Error) → Fails {S = S} {A = A} (fail e)
unfolding fail
Fails-fail e = record { never = λ s v. v }

-- An action fails whose last part does, whatever comes before.
pub Fails-bind :
    {S A B : Type 0} (m : Exec S A) (f : A → Exec S B) → ((a : A) → Fails (f a)) → Fails (m >>= f)
unfolding ◌>>=◌
Fails-bind {S} {A} m f last = record { never = λ s. of_result (m s).0 (m s).1 }
  where
    of_result : (r : Result A) (s : S) → ¬ IsValue (Effect.continue r f s).0
    of_result (ok a) s = (last a).never s
    of_result (err e) s = λ v. v
    of_result (crash x) s = λ v. v

-- The end of a process: `main` returns (status 0), it calls os.Exit, or it panics.
pub data Exit : Type 0 where
  finished : Exit
  exited : ℕ → Exit
  panicked : String → Exit

-- An error of the main action is logged, and the process exits with 1.
abbrev pub exit_of : Result (Unit {0}) → Exit
exit_of (ok _) = finished
exit_of (err e) = exited 1
exit_of (crash m) = panicked m

abbrev pub IsFinished : Exit → Type 0
IsFinished finished = Unit
IsFinished (exited n) = ⊥
IsFinished (panicked m) = ⊥

pub exit_of-failed : (r : Result (Unit {0})) → ¬ IsValue r → ¬ IsFinished (exit_of r)
exit_of-failed (ok u) h = h
exit_of-failed (err e) h = λ v. v
exit_of-failed (crash m) h = λ v. v

-- What comes after a step of the start-up: an error is logged, and the process exits with 1.
abbrev pub or_exit :
    {A : Type 0} → Result A → (A → History → Exit × History) → History → Exit × History
or_exit (ok a) next h = next a h
or_exit (err e) next h = (exited 1, h)
or_exit (crash m) next h = (panicked m, h)

module _ {A : Type 0} where
  pub or_exit-failed :
      (r : Result A) (next : A → History → Exit × History) (h : History)
      → ((a : A) (t : History) → ¬ IsFinished (next a t).0)
      → ¬ IsFinished (or_exit r next h).0
  or_exit-failed (ok a) next h k = k a h
  or_exit-failed (err e) next h k = λ v. v
  or_exit-failed (crash m) next h k = λ v. v

  -- Where anything is done, the step was passed.
  pub or_exit-passed :
      (r : Result A) (next : A → History → Exit × History) (h : History)
      → (or_exit r next h).1 ≢ h
      → (a : A) × (r ≡ ok a) × ((next a h).1 ≢ h)
  or_exit-passed (ok a) next h k = (a, refl, k)
  or_exit-passed (err e) next h k = absurd (k refl)
  or_exit-passed (crash m) next h k = absurd (k refl)
