-- ===== src/Ghaec2/Tracker/Laws.antt =====
-- Laws of the tracker's map, and what its two loops change.
use actionsspot.Prelude.{
  ℕ, zero, suc, Option-cases, ◌+◌, ◌≤◌, min, ℤ, pos, String, ◌≡◌, refl, ◌≢◌, Bool, false, none,
  some, List, [], ◌∷◌, length, member, select, str_eq, eq_iff, if◌then◌else◌, arith, inl, inr,
}
use actionsspot.Ghaec2.Tracker.{
  Instance, map_some, Instances, lookup, insert, delete, change, job_started, is_idle, passes,
  terminate_loop, terminate_idle,
}
use actionsspot.Ghaec2.Tracker.Named.{Named, idle_keys, idle_ids_lem}

pub lookup-insert :
    (k j : String) (i : Instance) (m : Instances)
    → lookup j (insert k i m) ≡ (if str_eq k j then some i else lookup j m)
unfolding lookup insert
lookup-insert k j i [] = refl
lookup-insert k j i ((l, x) ∷ m) =
    ground (arith, eq_iff k j, eq_iff l k, eq_iff l j, lookup-insert k j i m)

pub lookup-delete :
    (k j : String) (m : Instances)
    → lookup j (delete k m) ≡ (if str_eq k j then none else lookup j m)
unfolding lookup delete
lookup-delete k j [] = ground arith
lookup-delete k j ((l, x) ∷ m) =
    ground (arith, eq_iff k j, eq_iff l k, eq_iff l j, lookup-delete k j m)

pub length-insert :
    (k : String) (i : Instance) (m : Instances)
    → lookup k m ≡ none
    → length (insert k i m) ≡ length m + 1
unfolding lookup insert
length-insert k i [] h = omega arith
length-insert k i ((l, x) ∷ m) h = ground (arith, length-insert k i m)

pub length-insert-le :
    (k : String) (i : Instance) (m : Instances) → length m ≤ length (insert k i m)
unfolding insert
length-insert-le k i [] = omega arith
length-insert-le k i ((l, x) ∷ m) = ground (arith, length-insert-le k i m)

pub lookup-change :
    (k j : String) (f : Instance → Instance) (m : Instances)
    → lookup j (change k f m) ≡ (if str_eq k j then map_some f (lookup j m) else lookup j m)
unfolding lookup change
lookup-change k j f [] = ground arith
lookup-change k j f ((l, x) ∷ m) =
    ground (arith, eq_iff k j, eq_iff l k, eq_iff l j, lookup-change k j f m)

length-change :
    (k : String) (f : Instance → Instance) (m : Instances) → length (change k f m) ≡ length m
unfolding change
length-change k f [] = refl
length-change k f ((l, x) ∷ m) = ground (arith, length-change k f m)

pub length-job_started :
    (order : List String) (r q : ℤ) (now : ℕ) (m : Instances)
    → length (job_started order r q now m) ≡ length m
unfolding job_started
length-job_started order r q now m = grind (arith, length-change)

-- Each key has one entry.
abbrev pub Unique : Instances → Type 0
Unique [] = Unit
Unique ((k, i) ∷ m) = (lookup k m ≡ none) × Unique m

delete_absent : (k : String) (m : Instances) → lookup k m ≡ none → delete k m ≡ m
unfolding lookup delete
delete_absent k [] h = refl
delete_absent k ((j, i) ∷ m) h = ground (arith, delete_absent k m)

length-delete :
    (k : String) (m : Instances) (i : Instance)
    → Unique m
    → lookup k m ≡ some i
    → length (delete k m) + 1 ≡ length m
unfolding lookup delete
length-delete k [] i u h = cc
length-delete k ((j, x) ∷ m) i u h =
    ground (arith, eq_iff j k, length-delete k m i u.1, delete_absent k m)

pub delete-Unique : (k : String) (m : Instances) → Unique m → Unique (delete k m)
unfolding delete
delete-Unique k [] u = tt
delete-Unique k ((j, x) ∷ m) u = ground (arith, delete-Unique k m u.1, lookup-delete k j m)

pub insert-Unique : (k : String) (i : Instance) (m : Instances) → Unique m → Unique (insert k i m)
unfolding lookup insert
insert-Unique k i [] u = (refl, tt)
insert-Unique k i ((j, x) ∷ m) u =
    ground (arith, eq_iff j k, eq_iff k j, insert-Unique k i m u.1, lookup-insert k j i m)

-- No key twice.
abbrev pub Distinct : List String → Type 0
Distinct [] = Unit
Distinct (k ∷ ks) = (member k ks ≡ false) × Distinct ks

-- Every key of the list has an entry.
abbrev Present : List String → Instances → Type 0
Present [] m = Unit
Present (k ∷ ks) m = (lookup k m ≢ none) × Present ks m

Present-delete :
    (k : String) (ks : List String) (m : Instances)
    → member k ks ≡ false
    → Present ks m
    → Present ks (delete k m)
Present-delete k [] m h p = tt
Present-delete k (j ∷ ks) m h p =
    ground (arith, eq_iff j k, eq_iff k j, lookup-delete k j m, Present-delete k ks m)

member-select :
    (p : String → Bool) (k : String) (ks : List String)
    → member k ks ≡ false
    → member k (select p ks) ≡ false
member-select p k [] h = refl
member-select p k (j ∷ ks) h = ground (arith, member-select p k ks)

select-Distinct : (p : String → Bool) (ks : List String) → Distinct ks → Distinct (select p ks)
select-Distinct p [] d = tt
select-Distinct p (k ∷ ks) d = ground (arith, select-Distinct p ks d.1, member-select p k ks)

idle_keys-Present : (order : List String) (m : Instances) → Present (idle_keys order m) m
unfolding idle_keys
idle_keys-Present [] m = tt
idle_keys-Present (k ∷ ks) m = ground (arith, idle_keys-Present ks m)

length-terminate_loop :
    (ks : List String) (t n c : ℕ) (m : Instances)
    → t + n ≡ c
    → Distinct ks
    → Unique m
    → Present ks m
    → length (terminate_loop ks t (pos c) m) + min n (length ks) ≡ length m
unfolding terminate_loop
length-terminate_loop [] t n c m e d u p = omega arith
length-terminate_loop (k ∷ ks) t zero c m e d u p = ground arith
length-terminate_loop (k ∷ ks) t (suc n) c m e d u p = elim (Option-cases (lookup k m)) [
  | inl missing ↦ absurd (p.0 missing)
  | inr (i, found) ↦ ground (
    arith,
    length-delete k m i u found,
    length-terminate_loop ks (t + 1) n c (delete k m) (omega arith) d.1 (delete-Unique k m u)
        (Present-delete k ks m d.0 p.1),
  )
]

lookup-terminate_loop :
    (ks : List String) (t : ℕ) (count : ℤ) (m : Instances) (j : String)
    → member j ks ≡ false
    → lookup j (terminate_loop ks t count m) ≡ lookup j m
unfolding terminate_loop
lookup-terminate_loop [] t count m j h = refl
lookup-terminate_loop (k ∷ ks) t count m j h =
    ground (
      arith,
      eq_iff k j,
      lookup-delete k j m,
      lookup-terminate_loop ks (t + 1) count (delete k m) j,
    )

busy_not_idle :
    (order : List String) (m : Instances) (j : String)
    → passes is_idle (lookup j m) ≡ false
    → member j (idle_keys order m) ≡ false
unfolding idle_keys
busy_not_idle [] m j h = refl
busy_not_idle (k ∷ ks) m j h = ground (arith, eq_iff k j, busy_not_idle ks m j h)

-- A runner that is not idle keeps its entry, whatever the count and the order of the map.
pub terminate_idle_keeps_busy :
    (order : List String) (count : ℤ) (m : Instances) (j : String)
    → Named m
    → passes is_idle (lookup j m) ≡ false
    → lookup j (terminate_idle order count m) ≡ lookup j m
unfolding terminate_idle
terminate_idle_keeps_busy order count m j named h =
    rw (idle_ids_lem order m named)
      (lookup-terminate_loop (idle_keys order m) 0 count m j (busy_not_idle order m j h))

-- Exactly as many runners go as were asked for, or all the idle ones if these are fewer.
pub terminate_idle_count :
    (order : List String) (n : ℕ) (m : Instances)
    → Distinct order
    → Unique m
    → Named m
    → length (terminate_idle order (pos n) m) + min n (length (idle_keys order m)) ≡ length m
unfolding terminate_idle idle_keys
terminate_idle_count order n m d u named = rw (idle_ids_lem order m named) (
    length-terminate_loop (idle_keys order m) 0 n n m (omega arith)
      (select-Distinct (λ k. passes is_idle (lookup k m)) order d) u (idle_keys-Present order m))
