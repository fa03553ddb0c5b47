-- ===== src/Ghaec2/Tracker/Size.antt =====
-- The number of entries of the tracker's map: what each loop can at most do to it.
use actionsspot.Prelude.{ℕ, ◌+◌, ◌≤◌, ℤ, String, List, [], ◌∷◌, length, arith}
use actionsspot.Ghaec2.Tracker.{
  Instance, Instances, insert, delete, idle_ids, terminate_loop, terminate_idle,
}

-- A write adds one entry at most.
pub insert_adds_one :
    (k : String) (i : Instance) (m : Instances) → length (insert k i m) ≤ length m + 1
unfolding insert
insert_adds_one k i [] = omega arith
insert_adds_one k i ((j, x) ∷ m) = ground (arith, insert_adds_one k i m)

delete_adds_none : (k : String) (m : Instances) → length (delete k m) ≤ length m
unfolding delete
delete_adds_none k [] = omega arith
delete_adds_none k ((j, x) ∷ m) = ground (arith, delete_adds_none k m)

terminate_loop_adds_none :
    (ks : List String) (t : ℕ) (count : ℤ) (m : Instances)
    → length (terminate_loop ks t count m) ≤ length m
unfolding terminate_loop
terminate_loop_adds_none [] t count m = omega arith
terminate_loop_adds_none (k ∷ ks) t count m =
    ground (arith, delete_adds_none k m, terminate_loop_adds_none ks (t + 1) count (delete k m))

-- A scale-down adds none.
pub terminate_idle_adds_none :
    (order : List String) (count : ℤ) (m : Instances)
    → length (terminate_idle order count m) ≤ length m
unfolding terminate_idle
terminate_idle_adds_none order count m = terminate_loop_adds_none (idle_ids order m) 0 count m
