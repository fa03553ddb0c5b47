-- ===== src/Ghaec2/Tracker/Pending.antt =====
-- Instances that were created and never reported as running.
use actionsspot.Prelude.{
  ℕ, ℤ, pos, String, ◌≡◌, refl, false, List, [], ◌∷◌, str_eq, arith, Bool-cases, Option-cases, inl,
  inr,
}
use actionsspot.Ghaec2.Tracker.{
  Instance, Instances, lookup, insert, change, job_started, is_idle, passes, idle_ids,
  terminate_loop, terminate_idle,
}

-- Every instance is "pending", and has no runner of GitHub's.
abbrev pub AllPending : Instances → Type 0
AllPending [] = Unit
AllPending ((k, i) ∷ m) = (i.state ≡ "pending") × (i.runner_id ≡ pos 0) × AllPending m

pub insert-AllPending :
    (k : String) (i : Instance) (m : Instances)
    → i.state ≡ "pending"
    → i.runner_id ≡ pos 0
    → AllPending m
    → AllPending (insert k i m)
unfolding insert
insert-AllPending k i [] s r h = (s, r, tt)
insert-AllPending k i ((j, x) ∷ m) s r h = ground (arith, insert-AllPending k i m s r h.2)

change-AllPending :
    (k : String) (q : ℤ) (now : ℕ) (m : Instances)
    → AllPending m
    → AllPending (change k (λ i. record i { job_id = q; last_activity = now }) m)
unfolding change
change-AllPending k q now [] h = tt
change-AllPending k q now ((j, x) ∷ m) h = ground (arith, change-AllPending k q now m h.2)

pub job_started-AllPending :
    (order : List String) (r q : ℤ) (now : ℕ) (m : Instances)
    → AllPending m
    → AllPending (job_started order r q now m)
unfolding job_started
job_started-AllPending order r q now m h = grind (arith, change-AllPending)

pending_instance : (i : Instance) → i.state ≡ "pending" → is_idle i ≡ false
pending_instance i e = rw e

pending_not_idle : (k : String) (m : Instances) → AllPending m → passes is_idle (lookup k m) ≡ false
unfolding lookup
pending_not_idle k [] h = refl
pending_not_idle k ((j, x) ∷ m) h = elim (Bool-cases (str_eq j k)) [
  | inl hit ↦ rw hit (pending_instance x h.0)
  | inr miss ↦ rw miss (pending_not_idle k m h.2)
]

idle_ids-pending : (order : List String) (m : Instances) → AllPending m → idle_ids order m ≡ []
unfolding idle_ids
idle_ids-pending [] m h = refl
idle_ids-pending (k ∷ ks) m h =
    ground (arith, pending_not_idle k m h, idle_ids-pending ks m h, Option-cases (lookup k m))

-- Of pending instances none is ever terminated.
pub terminate_idle-pending :
    (order : List String) (count : ℤ) (m : Instances)
    → AllPending m
    → terminate_idle order count m ≡ m
unfolding terminate_idle terminate_loop
terminate_idle-pending order count m h = rw (idle_ids-pending order m h)
