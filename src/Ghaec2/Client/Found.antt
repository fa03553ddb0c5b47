-- ===== src/Ghaec2/Client/Found.antt =====
-- What the scale set that is found or created is like.
pub mod Create
use actionsspot.Prelude.{
  member, all, map, ◌⊎◌, subst, false, ℤ, pos, eqb_ℤ, String, ◌≡◌, refl, is_blank, is_empty, Bool,
  true, not, ◌&&◌, ◌||◌, Option, none, some, List, [], ◌∷◌, str_eq, Bool-cases, inl, inr, arith,
  ◌==◌,
}
use actionsspot.Effect
use actionsspot.Effect.Limits.{Returns-attempt}
use actionsspot.Effect.Ends.{
  OfEnd, Ends, Ends-lift, Ends-pure, Ends-fail, Ends-if, Ends-wrapped, Ends-then, Ends-bind,
}
use actionsspot.Effect.{
  read_all, Url, Reply, broken, reply_result, request_to, Request, http, replied, lift, do_request,
  ◌>>=◌, Env, Response, History, Result, ok, err, crash, unmarshal_as, attempt, attempt_result,
}
use actionsspot.Effect.Returns.{
  OfValue, Returns, Returns-any, Returns-bind, Returns-lift, Returns-pure,
}
use actionsspot.Ghaec2.Types.{RunnerScaleSet, decode_scale_set, extract_label_names}
use actionsspot.Ghaec2.Client.{Client, make_actions_service_request}
use actionsspot.Ghaec2.Client.ScaleSets.{
  all_exist, scale_set_payload, decoded, after_search, by_name, create_scale_set, created,
  find_existing_scale_set, find_existing_scale_set_by_name, found_by_name,
  get_or_create_runner_scale_set, labels_match, list_existing_scale_sets, matching_scale_set,
  named_scale_set,
}
use actionsspot.Ghaec2.Client.Found.Create.{Created, Ends-create}

-- The set has the name, or a label is asked for and it has them all.
abbrev pub answers : String → List String → RunnerScaleSet → Bool
answers name labels ss =
    str_eq ss.name name
    || not (is_empty labels) && all (λ label. member label (map (λ l. l.name) ss.labels)) labels

all_exist_lem :
    (existing labels : List String)
    → all_exist existing labels ≡ all (λ label. member label existing) labels
all_exist_lem existing [] = refl
all_exist_lem existing (label ∷ labels) = ground (arith, all_exist_lem existing labels)

labels_match_lem :
    (existing labels : List String)
    → labels_match existing labels
      ≡ (not (is_empty labels) && all (λ label. member label existing) labels)
unfolding labels_match
labels_match_lem existing labels = rw (all_exist_lem existing labels) (ground arith)

module _ (name : String) (labels : List String) where
  abbrev Answers : RunnerScaleSet → Type 0
  Answers ss = answers name labels ss ≡ true

  abbrev AnswersIfAny : Option RunnerScaleSet → Type 0
  AnswersIfAny none = Unit
  AnswersIfAny (some ss) = Answers ss

  answers_lem :
      (ss : RunnerScaleSet)
      → str_eq ss.name name || labels_match (extract_label_names ss.labels) labels ≡ true
      → Answers ss
  answers_lem ss h =
      let same = labels_match_lem (extract_label_names ss.labels) labels in
      subst (λ b. (str_eq ss.name name || b) ≡ true) same h

  matching_answers :
      (sets : List RunnerScaleSet) → AnswersIfAny (matching_scale_set name labels sets)
  unfolding matching_scale_set
  matching_answers [] = tt
  matching_answers (ss ∷ sets) = elim (Bool-cases (str_eq ss.name name)) [
    | inl named ↦ rw named (rw named refl)
    | inr other ↦ elim (Bool-cases (labels_match (extract_label_names ss.labels) labels)) [
      | inl held ↦ rw (other, held) (answers_lem ss (rw (other, held) refl))
      | inr h ↦ rw (other, h) (matching_answers sets)
    ]
  ]

  named_answers : (sets : List RunnerScaleSet) → AnswersIfAny (named_scale_set name sets)
  unfolding named_scale_set
  named_answers [] = tt
  named_answers (ss ∷ sets) = elim (Bool-cases (str_eq ss.name name)) [
    | inl named ↦ rw named (rw named refl)
    | inr other ↦ rw other (named_answers sets)
  ]

  module _ (env : Env) (c : Client) (group : ℤ) where
    -- The set is one that was found, and answers what was asked for, or it was created.
    abbrev pub Usable : RunnerScaleSet → History → Type 0
    Usable ss h = Answers ss ⊎ Created name labels env c group ss h

    Ends-by_name :
        (o : Option RunnerScaleSet)
        → AnswersIfAny o
        → Ends Usable (by_name env c name labels group o)
    Ends-by_name none u =
        Ends-if Usable (is_blank name || is_empty labels) _ _ (Ends-fail Usable _) (record {
          at = λ h.
              made (create_scale_set env c name labels group h).0 _
                ((Ends-create name labels env c group).at h);
        })
      where
        made :
            (r : Result RunnerScaleSet) (t : History)
            → OfEnd (Created name labels env c group) (r, t)
            → OfEnd Usable (r, t)
        made (ok ss) t k = inr k
        made (err e) t k = tt
        made (crash x) t k = tt
    Ends-by_name (some ss) u = Ends-pure Usable ss λ h. inl u

    Returns-found :
        (r : Result (List RunnerScaleSet)) → Returns AnswersIfAny (found_by_name env c name r)
    Returns-found (ok sets) = Returns-pure AnswersIfAny _ (named_answers sets)
    Returns-found (err e) = Returns-pure AnswersIfAny none tt
    Returns-found (crash x) = Returns-lift AnswersIfAny _ tt

    Returns-named : Returns AnswersIfAny (find_existing_scale_set_by_name env c name)
    unfolding find_existing_scale_set_by_name
    Returns-named = Returns-bind AnswersIfAny _ _ _ (Returns-any _) λ r x. Returns-found r

    Returns-find : Returns AnswersIfAny (find_existing_scale_set env c name labels)
    unfolding find_existing_scale_set
    Returns-find =
        Returns-bind AnswersIfAny _ _ _ (Returns-any _)
          λ sets x. Returns-pure AnswersIfAny _ (matching_answers sets)

    Ends-after :
        (r : Result (Option RunnerScaleSet))
        → OfValue AnswersIfAny r
        → Ends Usable (after_search env c name labels group r)
    Ends-after (ok (some ss)) u = Ends-pure Usable ss λ h. inl u
    Ends-after (ok none) u = Ends-bind Usable _ _ _ Returns-named Ends-by_name
    Ends-after (err e) u = Ends-bind Usable _ _ _ Returns-named Ends-by_name
    Ends-after (crash x) u = Ends-lift Usable _ λ h. tt

    Ends-get : Ends Usable (get_or_create_runner_scale_set env c name labels group)
    unfolding get_or_create_runner_scale_set
    Ends-get =
        Ends-bind Usable _ _ _ (Returns-any (attempt (list_existing_scale_sets env c)))
          λ x y. Ends-bind Usable _ _ _ (Returns-attempt AnswersIfAny _ Returns-find) Ends-after

    -- Whatever the service answers, a scale set that is returned has the name asked for or all the
    -- labels asked for, of which there is one; or else the last event is a request to create a set
    -- with this name, these labels and this group, and the set is what its response says, with an
    -- id and a name.
    pub scale_set-Usable :
        (h : History) (ss : RunnerScaleSet)
        → (get_or_create_runner_scale_set env c name labels group h).0 ≡ ok ss
        → (answers name labels ss ≡ true)
          ⊎ Created name labels env c group ss
              (get_or_create_runner_scale_set env c name labels group h).1
    scale_set-Usable h ss e =
        subst (OfValue λ s. Usable s (get_or_create_runner_scale_set env c name labels group h).1) e
          (Ends-get.at h)
