-- ===== src/Ghaec2/Tracker/Named.antt =====
-- Instances that stand under their own ids: what is deleted by its id is deleted by its key.
use actionsspot.Prelude.{
  String, ◌≡◌, refl, some, List, [], ◌∷◌, select, eq_iff, arith, Option-cases, inl, inr,
}
use actionsspot.Ghaec2.Tracker.{Instance, Instances, lookup, idle_ids, is_idle, passes}

-- Each instance stands under its own id.
abbrev pub Named : Instances → Type 0
Named [] = Unit
Named ((k, i) ∷ m) = (i.instance_id ≡ k) × Named m

-- The keys of the idle instances, in the order visited.
unfoldable pub idle_keys : List String → Instances → List String
unfolding lookup
idle_keys order m = select (λ k. passes is_idle (lookup k m)) order

lookup-Named :
    (k : String) (m : Instances) (i : Instance) → Named m → lookup k m ≡ some i → i.instance_id ≡ k
unfolding lookup
lookup-Named k [] i named found = ground (arith, found)
lookup-Named k ((j, x) ∷ m) i named found =
    ground (arith, eq_iff j k, named, lookup-Named k m i named.1)

pub idle_ids_lem :
    (order : List String) (m : Instances) → Named m → idle_ids order m ≡ idle_keys order m
unfolding idle_ids idle_keys
idle_ids_lem [] m named = refl
idle_ids_lem (k ∷ ks) m named = elim (Option-cases (lookup k m)) [
  | inl missing ↦ ground (arith, missing, idle_ids_lem ks m named)
  | inr (i, found) ↦ ground (arith, found, lookup-Named k m i named found, idle_ids_lem ks m named)
]
