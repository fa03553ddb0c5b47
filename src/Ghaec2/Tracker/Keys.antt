-- ===== src/Ghaec2/Tracker/Keys.antt =====
-- The keys of the tracker's map: which operations keep them.
use actionsspot.Prelude.{
  ℕ, ℤ, String, ◌≢◌, Option, none, some, List, arith, Bool-cases, inl, inr, str_eq,
}
use actionsspot.Ghaec2.Tracker.{Instance, Instances, map_some, lookup, insert, change, job_started}
use actionsspot.Ghaec2.Tracker.Laws.{lookup-insert, lookup-change}

-- Each key of the one is a key of the other.
abbrev pub Covers : Instances → Instances → Type 0
Covers before after = (k : String) → lookup k before ≢ none → lookup k after ≢ none

pub insert_keeps_keys :
    (j k : String) (i : Instance) (m : Instances)
    → lookup k m ≢ none
    → lookup k (insert j i m) ≢ none
insert_keeps_keys j k i m there = rw (lookup-insert j k i m) (elim (Bool-cases (str_eq j k)) [
  | inl hit ↦ rw hit (λ e. ground (arith, e))
  | inr miss ↦ rw miss there
])

map_some_keeps : (f : Instance → Instance) (o : Option Instance) → o ≢ none → map_some f o ≢ none
map_some_keeps f none h = h
map_some_keeps f (some i) h = λ e. ground (arith, e)

change_keeps_keys :
    (j k : String) (f : Instance → Instance) (m : Instances)
    → lookup k m ≢ none
    → lookup k (change j f m) ≢ none
change_keeps_keys j k f m there = rw (lookup-change j k f m) (elim (Bool-cases (str_eq j k)) [
  | inl hit ↦ rw hit (map_some_keeps f (lookup k m) there)
  | inr miss ↦ rw miss there
])

pub job_started_keeps_keys :
    (order : List String) (r q : ℤ) (now : ℕ) (m : Instances) (k : String)
    → lookup k m ≢ none
    → lookup k (job_started order r q now m) ≢ none
unfolding job_started
job_started_keeps_keys order r q now m k there = grind (arith, change_keeps_keys)
