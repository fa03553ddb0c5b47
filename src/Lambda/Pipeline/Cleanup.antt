-- ===== src/Lambda/Pipeline/Cleanup.antt =====
-- Which runners the cleanup removes.
use actionsspot.Prelude.{
  ◌≡◌, refl, Bool, false, List, [], ◌∷◌, select, str_eq, Bool-cases, inl, inr,
}
use actionsspot.Effect
use actionsspot.Effect.{History, Env, Result, ok, err, crash, Exec, pure, ◌>>=◌, ◌>>◌}
use actionsspot.Lambda.Types.{SelfHostedRunner}
use actionsspot.Lambda.Config.{Config}
use actionsspot.Lambda.Pipeline.{cleanup_each, cleanup_runner}

abbrev is_offline : SelfHostedRunner → Bool
is_offline runner = str_eq runner.status "offline"

module _ (env : Env) (c : Config) where
  skipped :
      (runner : SelfHostedRunner) (h : History)
      → is_offline runner ≡ false
      → cleanup_runner env c runner h ≡ (ok tt, h)
  unfolding cleanup_runner pure
  skipped runner h e = rw e refl

  after_each :
      (r : Result (Unit {0})) (t : History) (m n : Exec History (Unit {0}))
      → ((u : History) → m u ≡ n u)
      → Effect.continue r (λ _. m) t ≡ Effect.continue r (λ _. n) t
  after_each (ok x) t m n same = same t
  after_each (err x) t m n same = refl
  after_each (crash x) t m n same = refl

  -- The cleanup does to a list of runners exactly what it does to the offline ones among them: for a
  -- runner with another status no call is made, and none is removed or terminated.
  pub cleanup_only_offline :
      (runners : List SelfHostedRunner) (h : History)
      → cleanup_each env c runners h ≡ cleanup_each env c (select is_offline runners) h
  unfolding cleanup_each ◌>>=◌
  cleanup_only_offline [] h = refl
  cleanup_only_offline (runner ∷ runners) h = elim (Bool-cases (is_offline runner)) [
    | inr other ↦ rw (skipped runner h other, other) (cleanup_only_offline runners h)
    | inl offline ↦ rw offline (
        after_each (cleanup_runner env c runner h).0 (cleanup_runner env c runner h).1 _ _
          (cleanup_only_offline runners))
  ]
