-- ===== src/Ghaec2/Scaler/Expiry/Texts.antt =====
-- The texts of errors, against the two that isMessageQueueTokenExpiredError looks for.
use text.Mathlib.Text.{starts_with}
use actionsspot.Prelude.{
  ℕ, String, ◌+++◌, ◌≡◌, refl, false, Option, decimal, eq_iff, str_eq, prefix_ne, Bool-cases, inl,
  inr,
}
use actionsspot.Effect.{Error, plain, wrap, actions, actions_detail, error_text}
use actionsspot.Ghaec2.Scaler.{is_token_expired}

-- A text that is no beginning of either text looked for.
abbrev pub IsNotice : String → Type 0
IsNotice p =
    (starts_with "message queue token expired" p ≡ false) × (starts_with "unauthorized" p ≡ false)

notice_ne : (p s t : String) → starts_with t p ≡ false → str_eq (p +++ s) t ≡ false
notice_ne p s t h = elim (Bool-cases (str_eq (p +++ s) t)) [
  | inl same ↦ absurd (prefix_ne p s t h ((eq_iff (p +++ s) t).0 same))
  | inr other ↦ other
]

expired_text :
    (e : Error) (p s : String) → error_text e ≡ p +++ s → IsNotice p → is_token_expired e ≡ false
unfolding is_token_expired
expired_text e p s q n =
    rw (q, notice_ne p s "message queue token expired" n.0, notice_ne p s "unauthorized" n.1)

pub wrap_not_expired : (p : String) (e : Error) → IsNotice p → is_token_expired (wrap p e) ≡ false
wrap_not_expired p e n =
    expired_text (wrap p e) p (": " +++ error_text e) (unfold error_text in refl) n

pub plain_not_expired : (p s : String) → IsNotice p → is_token_expired (plain (p +++ s)) ≡ false
plain_not_expired p s n = expired_text (plain (p +++ s)) p s (unfold error_text in refl) n

pub actions_not_expired :
    (n : ℕ) (activity message : String) (e : Option String)
    → is_token_expired (actions n activity message e) ≡ false
actions_not_expired n activity message e =
    expired_text (actions n activity message e) "Actions API error (status: "
      (decimal n +++ ", activity: " +++ activity +++ "): " +++ actions_detail message e)
      (unfold error_text in refl) (refl, refl)

pub capacity_not_expired :
    is_token_expired (plain "maxCapacity must be greater than or equal to 0") ≡ false
unfolding is_token_expired error_text
capacity_not_expired = refl
