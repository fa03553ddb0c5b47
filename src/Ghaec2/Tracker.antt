-- ===== src/Ghaec2/Tracker.antt =====
-- ghaec2/message_queue_scaler.go: the tracker of EC2 instances. Its map is a list of entries with
-- one entry for each key; a loop over the map visits the keys in an order that is an argument.
pub mod Named
pub mod Laws
pub mod Pending
pub mod Keyed
pub mod Size
pub mod Keys
pub mod Refines
use actionsspot.Prelude.{
  ℕ, suc, ◌+◌, ℤ, pos, String, Bool, true, false, ◌&&◌, Option, none, some, List, [], ◌∷◌, map,
  length, str_eq, eqb_ℤ, ltb_ℤ, not, select, if◌then◌else◌,
}

pub record Instance : Type 0 where
  pub instance_id : String
  pub launch_time : ℕ
  pub state : String
  pub job_id : ℤ
  pub runner_id : ℤ
  pub labels : List String
  pub last_activity : ℕ

abbrev pub Instances : Type 0
Instances = List (String × Instance)

abbrev pub keys : Instances → List String
keys = map λ e. e.0

unfoldable pub lookup : String → Instances → Option Instance
lookup k [] = none
lookup k ((j, i) ∷ m) = if str_eq j k then some i else lookup k m

-- instances[k] = i
unfoldable pub insert : String → Instance → Instances → Instances
insert k i [] = (k, i) ∷ []
insert k i ((j, x) ∷ m) = if str_eq j k then (k, i) ∷ m else (j, x) ∷ insert k i m

-- delete(instances, k)
pub delete : String → Instances → Instances
delete k [] = []
delete k ((j, x) ∷ m) = let rest = delete k m in if str_eq j k then rest else (j, x) ∷ rest

-- A change of the instance that the map points to.
pub change : String → (Instance → Instance) → Instances → Instances
change k f [] = []
change k f ((j, x) ∷ m) = if str_eq j k then (j, f x) ∷ m else (j, x) ∷ change k f m

-- The first key visited whose instance passes the test.
find_key : (Instance → Bool) → List String → Instances → Option String
unfolding lookup
find_key p [] m = none
find_key p (k ∷ ks) m =
    let later = find_key p ks m in
    elim (lookup k m) [ none ↦ later | some i ↦ if p i then some k else later ]

abbrev pub is_idle : Instance → Bool
is_idle i = str_eq i.state "running" && eqb_ℤ i.job_id (pos 0)

abbrev pub passes : (Instance → Bool) → Option Instance → Bool
passes p none = false
passes p (some i) = p i

-- What is found, changed.
abbrev pub map_some : (Instance → Instance) → Option Instance → Option Instance
map_some f none = none
map_some f (some i) = some (f i)

-- handleJobStarted: the first instance with the runner's id gets the job.
pub job_started : List String → ℤ → ℤ → ℕ → Instances → Instances
unfolding find_key change
job_started order runner_id request_id now m =
    elim (find_key (λ i. eqb_ℤ i.runner_id runner_id) order m) [
      | none ↦ m
      | some k ↦ change k (λ i. record i { job_id = request_id; last_activity = now }) m
    ]

-- The idle runners in the order visited, as the ids that they are deleted by.
pub idle_ids : List String → Instances → List String
unfolding lookup
idle_ids [] m = []
idle_ids (k ∷ ks) m =
    let rest = idle_ids ks m in
    elim (lookup k m) [ none ↦ rest | some i ↦ if is_idle i then i.instance_id ∷ rest else rest ]

-- The loop that deletes until `count` runners are gone.
pub terminate_loop : List String → ℕ → ℤ → Instances → Instances
unfolding delete
terminate_loop [] terminated count m = m
terminate_loop (id ∷ ids) terminated count m =
    let rest = terminate_loop ids (terminated + 1) count (delete id m) in
    if not (ltb_ℤ (pos terminated) count) then m else rest

pub terminate_idle : List String → ℤ → Instances → Instances
unfolding idle_ids terminate_loop
terminate_idle order count m = terminate_loop (idle_ids order m) 0 count m
