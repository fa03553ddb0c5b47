-- ===== src/Lambda/Client/Pages.antt =====
-- The loop over the pages of an organization's repositories.
use actionsspot.Prelude.{
  ℕ, zero, suc, ◌+◌, ◌-◌, ◌≤◌, ◌≡◌, refl, List, [], ◌∷◌, ◌++◌, ltb, true, false, if◌then◌else◌,
  arith, Bool-cases, inl, inr, subst,
}
use actionsspot.Effect.{Event, History, Env, Exec, pure}
use actionsspot.Lambda.Client.Cost.{Calls-get_json}
use actionsspot.Effect.Same.{same_bind}
use actionsspot.Effect.Calls.{weight, Calls, Calls-bind, Calls-pure}
use actionsspot.Lambda.Types.{Repository}
use actionsspot.Lambda.Config.{Config}
use actionsspot.Lambda.Client.{
  more_repositories, repository_pages, get_repositories_in_organization,
}

-- Each request weighs the same.
abbrev pub one : Event → ℕ
one e = 1

module _ (env : Env) (c : Config) where
  Calls-more :
      (next : List Repository → Exec History (List Repository)) (page n : ℕ)
      (all repos : List Repository)
      → ((rs : List Repository) → Calls one n (next rs))
      → Calls one n (more_repositories env c next page all repos)
  Calls-more next page n all [] k = Calls-pure all n
  Calls-more next page n all (repo ∷ repos) k =
      elim (ltb 10 (page + 1))
        as (λ b.
          Calls one n (if b then pure (all ++ repo ∷ repos) else next (all ++ repo ∷ repos))) [
            | true ↦ Calls-pure _ n
            | false ↦ k _
          ]

  Calls-pages :
      (fuel page : ℕ) (all : List Repository)
      → Calls one fuel (repository_pages env c fuel page all)
  unfolding repository_pages
  Calls-pages zero page all = Calls-pure all 0
  Calls-pages (suc fuel) page all =
      subst (λ n. Calls one n (repository_pages env c (suc fuel) page all)) (ground arith)
        (Calls-bind _ _ 1 fuel (Calls-get_json one 1 env c _ _ _ _ _ λ req. omega arith)
          λ repos. Calls-more _ page fuel all repos (Calls-pages fuel (page + 1)))

  same_more :
      (next₁ next₂ : List Repository → Exec History (List Repository)) (page : ℕ)
      (all repos : List Repository) (h : History)
      → (page + 1 ≤ 10 → (rs : List Repository) (t : History) → next₁ rs t ≡ next₂ rs t)
      → more_repositories env c next₁ page all repos h
        ≡ more_repositories env c next₂ page all repos h
  same_more next₁ next₂ page all [] h same = refl
  same_more next₁ next₂ page all (repo ∷ repos) h same = elim (Bool-cases (ltb 10 (page + 1))) [
    | inl over ↦ rw over refl
    | inr within ↦ rw within (same (ground arith) _ h)
  ]

  more_fuel :
      (fuel extra page : ℕ) (all : List Repository) (h : History)
      → fuel + page ≡ 10
      → repository_pages env c (suc (fuel + extra)) page all h
        ≡ repository_pages env c (suc fuel) page all h
  unfolding repository_pages
  more_fuel zero extra page all h e = same_bind _ _ _ h λ repos t.
      same_more (repository_pages env c (0 + extra) (page + 1))
        (repository_pages env c 0 (page + 1)) page all repos t λ le rs u. absurd (omega arith)
  more_fuel (suc fuel) extra page all h e =
      let same : suc (fuel + extra) ≡ suc fuel + extra = omega arith in
      same_bind _ _ _ h λ repos t.
        same_more (repository_pages env c (suc fuel + extra) (page + 1))
          (repository_pages env c (suc fuel) (page + 1)) page all repos t
          λ le rs u.
            subst
              (λ n.
                repository_pages env c n (page + 1) rs u
                ≡ repository_pages env c (suc fuel) (page + 1) rs u)
              same (more_fuel fuel extra (page + 1) rs u (omega arith))

  -- The repositories of an organization take at most ten requests, and ten rounds are enough: with
  -- more the loop has the same result and makes the same requests.
  pub get_repositories_bounds :
      (rounds : ℕ) (h : History)
      → 10 ≤ rounds
      → (weight one (get_repositories_in_organization env c h).1 ≤ weight one h + 10)
        × (repository_pages env c rounds 1 [] h ≡ get_repositories_in_organization env c h)
  unfolding get_repositories_in_organization
  get_repositories_bounds rounds h enough =
      let same : suc (9 + (rounds - 10)) ≡ rounds = omega arith in
      (
        (Calls-pages 10 1 []).most h,
        subst (λ n. repository_pages env c n 1 [] h ≡ repository_pages env c 10 1 [] h) same
            (more_fuel 9 (rounds - 10) 1 [] h refl),
      )
