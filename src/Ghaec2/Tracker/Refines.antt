-- ===== src/Ghaec2/Tracker/Refines.antt =====
-- The tracker's list of entries as an implementation of a map.
use actionsspot.Prelude.{
  fun_ext, ◌++◌, Bool-cases, inl, inr, ℕ, ◌+◌, ℤ, pos, String, ◌≡◌, refl, ap, ◌∙◌, Bool, Option,
  none, some, List, [], ◌∷◌, str_eq, eq_iff, eqb_ℤ, ltb_ℤ, if◌then◌else◌, arith,
}
use actionsspot.Ghaec2.Tracker.{
  Instance, Instances, lookup, insert, delete, change, job_started, terminate_loop, terminate_idle,
  idle_ids, is_idle, passes, map_some, find_key,
}
use actionsspot.Ghaec2.Tracker.Laws.{lookup-insert, lookup-delete, lookup-change}

-- Go's map, as the function from its keys.
abbrev pub Map : Type 0
Map = String → Option Instance

abbrev pub view : Instances → Map
view m k = lookup k m

abbrev put : String → Option Instance → Map → Map
put k v f j = if str_eq k j then v else f j

-- The first key visited whose instance passes a test.
first : (Instance → Bool) → List String → Map → Option String
first p [] f = none
first p (k ∷ ks) f = if passes p (f k) then some k else first p ks f

-- The change of the instance at a key that was found.
abbrev put_found : (Instance → Instance) → Map → Option String → Map
put_found change_of f none = f
put_found change_of f (some k) = put k (map_some change_of (f k)) f

-- An instance is deleted by its own id, and only if it is idle.
abbrev id_if_idle : Option Instance → List String
id_if_idle none = []
id_if_idle (some i) = if is_idle i then i.instance_id ∷ [] else []

-- The ids of the idle instances, in the order visited.
idle_in : Map → List String → List String
idle_in f [] = []
idle_in f (k ∷ ks) = id_if_idle (f k) ++ idle_in f ks

-- The keys of a list lose their instances, as long as fewer than `count` are gone.
terminate_keys : List String → ℕ → ℤ → Map → Map
terminate_keys [] n count f = f
terminate_keys (k ∷ ks) n count f =
    let rest = terminate_keys ks (n + 1) count (put k none f) in
    if ltb_ℤ (pos n) count then rest else f

-- A call of the tracker, with the order in which its loop visits the map.
pub data Call : Type 0 where
  created : String → Instance → Call
  started : List String → ℤ → ℤ → ℕ → Call
  scaled_down : List String → ℤ → Call

-- What a call does to the list, by the tracker's code.
unfoldable pub step : Call → Instances → Instances
step (created k i) m = insert k i m
step (started order runner_id request_id now) m = job_started order runner_id request_id now m
step (scaled_down order count) m = terminate_idle order count m

-- What a call means of the map.
unfoldable pub meaning : Call → Map → Map
unfolding first idle_in terminate_keys
meaning (created k i) f = put k (some i) f
meaning (started order runner_id request_id now) f =
    put_found (λ i. record i { job_id = request_id; last_activity = now }) f
      (first (λ i. eqb_ℤ i.runner_id runner_id) order f)
meaning (scaled_down order count) f = terminate_keys (idle_in f order) 0 count f

unfoldable pub run : List Call → Instances → Instances
run [] m = m
run (c ∷ cs) m = run cs (step c m)

unfoldable pub run_meaning : List Call → Map → Map
run_meaning [] f = f
run_meaning (c ∷ cs) f = run_meaning cs (meaning c f)

view-insert :
    (k : String) (i : Instance) (m : Instances) → view (insert k i m) ≡ put k (some i) (view m)
view-insert k i m = fun_ext λ j. lookup-insert k j i m

view-delete : (k : String) (m : Instances) → view (delete k m) ≡ put k none (view m)
view-delete k m = fun_ext λ j. lookup-delete k j m

view-change :
    (k : String) (f : Instance → Instance) (m : Instances)
    → view (change k f m) ≡ put k (map_some f (lookup k m)) (view m)
view-change k f m = fun_ext λ j. ground (arith, lookup-change k j f m, eq_iff k j)

find_key-first :
    (p : Instance → Bool) (ks : List String) (m : Instances) → find_key p ks m ≡ first p ks (view m)
unfolding find_key first
find_key-first p [] m = refl
find_key-first p (k ∷ ks) m = ground (arith, find_key-first p ks m)

view-terminate_loop :
    (ks : List String) (n : ℕ) (count : ℤ) (m : Instances)
    → view (terminate_loop ks n count m) ≡ terminate_keys ks n count (view m)
unfolding terminate_loop terminate_keys
view-terminate_loop [] n count m = refl
view-terminate_loop (k ∷ ks) n count m = elim (Bool-cases (ltb_ℤ (pos n) count)) [
  | inl more ↦ rw (more, ← view-delete k m) (view-terminate_loop ks (n + 1) count (delete k m))
  | inr done ↦ rw done refl
]

view-started :
    (o : Option String) (f : Instance → Instance) (m : Instances)
    → view (elim o [ none ↦ m | some k ↦ change k f m ]) ≡ put_found f (view m) o
view-started none f m = refl
view-started (some k) f m = view-change k f m

idle_ids_lem : (order : List String) (m : Instances) → idle_ids order m ≡ idle_in (view m) order
unfolding idle_ids idle_in
idle_ids_lem [] m = refl
idle_ids_lem (k ∷ ks) m = ground (arith, idle_ids_lem ks m)

view-step : (c : Call) (m : Instances) → view (step c m) ≡ meaning c (view m)
unfolding step meaning terminate_idle job_started
view-step (created k i) m = view-insert k i m
view-step (started order r q now) m =
    let with_job : Instance → Instance = λ i. record i { job_id = q; last_activity = now } in
    view-started (find_key (λ i. eqb_ℤ i.runner_id r) order m) with_job m
    ∙ ap (put_found with_job (view m)) (find_key-first (λ i. eqb_ℤ i.runner_id r) order m)
view-step (scaled_down order count) m =
    view-terminate_loop (idle_ids order m) 0 count m
    ∙ ap (λ ids. terminate_keys ids 0 count (view m)) (idle_ids_lem order m)

-- Whatever the calls and the orders in which their loops visit the map, the tracker's list holds, of
-- each key, what the same calls make of the map alone: it depends on nothing else of the list.
pub tracker_refines : (cs : List Call) (m : Instances) → view (run cs m) ≡ run_meaning cs (view m)
unfolding run run_meaning
tracker_refines [] m = refl
tracker_refines (c ∷ cs) m = tracker_refines cs (step c m) ∙ ap (run_meaning cs) (view-step c m)
