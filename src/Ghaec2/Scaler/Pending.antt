-- ===== src/Ghaec2/Scaler/Pending.antt =====
-- The tracked instances never leave the state "pending", so a scale-down removes none.
use actionsspot.Prelude.{String, ◌≢◌, none, refl, List}
use actionsspot.Effect.{Env}
use actionsspot.Ghaec2.Tracker.{Instances, lookup}
use actionsspot.Ghaec2.Tracker.Keys.{Covers, insert_keeps_keys, job_started_keeps_keys}
use actionsspot.Ghaec2.Tracker.Pending.{
  AllPending, insert-AllPending, job_started-AllPending, terminate_idle-pending,
}
use actionsspot.Ghaec2.Scaler.{Scaler, create_runner, terminate_idle_runners, handle_job_started}
use actionsspot.Ghaec2.Scaler.Frame.{Frame, Maintains-poll_loop}
use actionsspot.Ghaec2.Scaler.Scaling.{desired_keeps}
use actionsspot.Ghaec2.Scaler.Polling.{Tick, poll_loop}

-- All instances are pending, and each key that `before` has is there.
abbrev Tracked : Instances → Scaler → Type 0
Tracked before s = AllPending s.instances × Covers before s.instances

module _ (env : Env) (before : Instances) where
  Tracked-frame : Frame env (Tracked before)
  unfolding create_runner terminate_idle_runners handle_job_started
  Tracked-frame = record {
    history = λ s x h. h;
    session = λ s x h. h;
    desired =
        desired_keeps env (Tracked before)
          (λ s h. (
            insert-AllPending _ _ s.instances refl refl h.0,
            λ k there. insert_keeps_keys _ k _ s.instances (h.1 k there),
          ))
          (λ c s h. rw (terminate_idle-pending _ c s.instances h.0) h);
    started = λ s r q h. (
      job_started-AllPending _ r q _ s.instances h.0,
      λ k there. job_started_keeps_keys _ r q _ s.instances k (h.1 k there),
    );
  }

-- From a state whose tracked instances are all pending, polling, whatever the messages and the
-- errors, keeps them all pending, and each key that has an instance still has one: a scale-down
-- removes no key.
pub poll_loop_keeps :
    (env : Env) (ticks : List Tick) (s : Scaler)
    → AllPending s.instances
    → AllPending (poll_loop env ticks s).1.instances
      × ((k : String)
          → lookup k s.instances ≢ none
          → lookup k (poll_loop env ticks s).1.instances ≢ none)
poll_loop_keeps env ticks s h =
    (Maintains-poll_loop env (Tracked s.instances) (Tracked-frame env s.instances) (λ t i k. k)
        ticks).at
      s (h, λ k there. there)
