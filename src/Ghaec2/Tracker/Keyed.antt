-- ===== src/Ghaec2/Tracker/Keyed.antt =====
-- The tracker's map, as every operation leaves it: one entry for each key, and each instance under
-- its own id, by which the source deletes it.
use actionsspot.Prelude.{ℕ, ◌+◌, ℤ, String, ◌≡◌, List, [], ◌∷◌, arith}
use actionsspot.Ghaec2.Tracker.{
  Instance, Instances, insert, delete, change, job_started, terminate_loop, terminate_idle,
  idle_ids,
}
use actionsspot.Ghaec2.Tracker.Named.{Named}
use actionsspot.Ghaec2.Tracker.Laws.{Unique, insert-Unique, delete-Unique, lookup-change}

pub insert-Named :
    (k : String) (i : Instance) (m : Instances) → i.instance_id ≡ k → Named m → Named (insert k i m)
unfolding insert
insert-Named k i [] e h = (e, tt)
insert-Named k i ((j, x) ∷ m) e h = ground (arith, insert-Named k i m e h.1)

delete-Named : (k : String) (m : Instances) → Named m → Named (delete k m)
unfolding delete
delete-Named k [] h = tt
delete-Named k ((j, x) ∷ m) h = ground (arith, delete-Named k m h.1)

change-Named :
    (k : String) (q : ℤ) (now : ℕ) (m : Instances)
    → Named m
    → Named (change k (λ i. record i { job_id = q; last_activity = now }) m)
unfolding change
change-Named k q now [] h = tt
change-Named k q now ((j, x) ∷ m) h = ground (arith, change-Named k q now m h.1)

change-Unique :
    (k : String) (f : Instance → Instance) (m : Instances) → Unique m → Unique (change k f m)
unfolding change
change-Unique k f [] u = tt
change-Unique k f ((j, x) ∷ m) u = ground (arith, change-Unique k f m u.1, lookup-change k j f m)

-- Both together.
abbrev pub Keyed : Instances → Type 0
Keyed m = Unique m × Named m

pub insert-Keyed :
    (k : String) (i : Instance) (m : Instances) → i.instance_id ≡ k → Keyed m → Keyed (insert k i m)
insert-Keyed k i m e h = (insert-Unique k i m h.0, insert-Named k i m e h.1)

pub job_started-Keyed :
    (order : List String) (r q : ℤ) (now : ℕ) (m : Instances)
    → Keyed m
    → Keyed (job_started order r q now m)
unfolding job_started
job_started-Keyed order r q now m h = grind (arith, change-Unique, change-Named)

terminate_loop-Keyed :
    (ks : List String) (t : ℕ) (count : ℤ) (m : Instances)
    → Keyed m
    → Keyed (terminate_loop ks t count m)
unfolding terminate_loop
terminate_loop-Keyed [] t count m h = h
terminate_loop-Keyed (k ∷ ks) t count m h = ground (
  arith,
  terminate_loop-Keyed ks (t + 1) count (delete k m) (delete-Unique k m h.0, delete-Named k m h.1),
)

pub terminate_idle-Keyed :
    (order : List String) (count : ℤ) (m : Instances)
    → Keyed m
    → Keyed (terminate_idle order count m)
unfolding terminate_idle
terminate_idle-Keyed order count m h = terminate_loop-Keyed (idle_ids order m) 0 count m h
