-- ===== src/Ghaec2/Config/Required.antt =====
-- The loop over the map of required values, in whatever order it visits the names.
use mathlib.Core.List.{Perm, Permᴰ}
use mathlib.Core.Logic.{∥∥₁_elim}
use mathlib.Core.Bool.{Bool-set}
use actionsspot.Prelude.{
  String, ◌≡◌, refl, ◌∙◌, ◌↔◌, is_blank, Bool, true, not, ◌&&◌, List, [], ◌∷◌, all, arith, ap,
}
use actionsspot.Effect.{ok}
use actionsspot.Ghaec2.Config.{check_required}

-- Every name has a value.
abbrev pub all_filled : (String → String) → List String → Bool
all_filled value = all λ name. not (is_blank (value name))

pub check_required_iff :
    (value : String → String) (names : List String)
    → (check_required value names ≡ ok tt) ↔ (all_filled value names ≡ true)
check_required_iff value [] = (λ _. refl, λ _. refl)
check_required_iff value (n ∷ ns) = ground (arith, check_required_iff value ns)

all-permᴰ : {xs ys : List String} (p : String → Bool) → Permᴰ xs ys → all p xs ≡ all p ys
all-permᴰ p Permᴰ.nil = refl
all-permᴰ p (Permᴰ.cons e d) = λ i. p (e i) && all-permᴰ p d i
all-permᴰ p (Permᴰ.swap e f) = ground (arith, ap p e, ap p f)
all-permᴰ p (Permᴰ.trans d e) = all-permᴰ p d ∙ all-permᴰ p e

pub all_filled-perm :
    (value : String → String) {xs ys : List String}
    → Perm xs ys
    → all_filled value xs ≡ all_filled value ys
all_filled-perm value d =
    ∥∥₁_elim d (Bool-set _ _) (all-permᴰ (λ name. not (is_blank (value name))))
