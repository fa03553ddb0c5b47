-- ===== src/Ghaec2/Scaler/Lifetime.antt =====
-- What every run of the scaler keeps of the tracked instances, from its start to its end.
use actionsspot.Prelude.{refl, List}
use actionsspot.Effect.{History, Env}
use actionsspot.Ghaec2.Config.{Config}
use actionsspot.Ghaec2.Tracker.Keyed.{Keyed, insert-Keyed, job_started-Keyed, terminate_idle-Keyed}
use actionsspot.Ghaec2.Tracker.Pending.{
  AllPending, insert-AllPending, job_started-AllPending, terminate_idle-pending,
}
use actionsspot.Ghaec2.Scaler.{Scaler, create_runner, terminate_idle_runners, handle_job_started}
use actionsspot.Ghaec2.Scaler.Frame.{Frame}
use actionsspot.Ghaec2.Scaler.Scaling.{desired_keeps}
use actionsspot.Ghaec2.Scaler.Whole.{Life, Maintains-run}
use actionsspot.Ghaec2.Scaler.Polling.{Tick}
use actionsspot.Ghaec2.Scaler.Start.{new_scaler, run}

-- One entry for each key, each instance under its own id, and all of them pending.
abbrev pub Tracked : Scaler → Type 0
Tracked s = Keyed s.instances × AllPending s.instances

module _ (env : Env) where
  Tracked-frame : Frame env Tracked
  unfolding create_runner terminate_idle_runners handle_job_started
  Tracked-frame = record {
    history = λ s x h. h;
    session = λ s x h. h;
    desired =
        desired_keeps env Tracked
          (λ s h. (
            insert-Keyed _ _ s.instances refl h.0,
            insert-AllPending _ _ s.instances refl refl h.1,
          ))
          (λ c s h. (
            terminate_idle-Keyed _ c s.instances h.0,
            rw (terminate_idle-pending _ c s.instances h.1) h.1,
          ));
    started = λ s r q h.
        (job_started-Keyed _ r q _ s.instances h.0, job_started-AllPending _ r q _ s.instances h.1);
  }

  Tracked-life : Life env Tracked
  Tracked-life = record {
    frame = Tracked-frame;
    marked = λ s i h. h;
    client = λ s c h. h;
    scale_set = λ s x h. h;
  }

-- From a new scaler to the end of its run, whatever the answers and the messages are and however the
-- run ends: the tracker has one entry for each key, each instance stands under its own id, and all
-- of them are still pending.
pub run-Tracked :
    (env : Env) (config : Config) (h : History) (ticks : List Tick)
    → Tracked (run env ticks (new_scaler config h)).1
unfolding new_scaler
run-Tracked env config h ticks =
    (Maintains-run env Tracked (Tracked-life env) ticks).at (new_scaler config h) ((tt, tt), tt)
