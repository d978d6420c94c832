-- ===== src/Coordinator/Tests/Process.antt =====
-- Instances of the theorems on the task that simulates a transaction.
use sidecar.Prelude.{◌≡◌, ◌<◌, refl, true, false, none, List, [], ◌∷◌, arith, inl}
use sidecar.Prelude.Result.{ok}
use sidecar.Mailbox.Wire.{decode_session_id}
use sidecar.Mailbox.Matching.{matches_dependency}
use sidecar.Simulation.Types.{SimulationResult}
use sidecar.Coordinator.World.{Env, World}
use sidecar.Coordinator.Sections.{takes_mailbox}
use sidecar.Coordinator.Pipeline.{dispatch_outbound_mailbox, fulfill_dependencies_from_mailbox}
use sidecar.Coordinator.Process.{
  Attempt, reading, registering, voting, finished, Event, ticks, others, notifies, expires, Task,
  step, react, react_all, check_xt_permissions,
}
use sidecar.Coordinator.Process.Justified.{Justified}
use sidecar.Coordinator.Process.Commit.{commit-Justified}
use sidecar.Coordinator.Process.Wakeup.{IsAwaited, lost_notification}
use sidecar.Coordinator.Process.Ends.{alone, alone_finishes}
use sidecar.Coordinator.Process.Success.Start.{alone_commits}
use sidecar.Coordinator.Tests.{env, id1, voted_xt, world}
use sidecar.Coordinator.Tests.Pipeline.{need, incoming}

-- The simulator reports success without further ado.
abbrev success : SimulationResult
success = record {
  success = true;
  error = none;
  state_overrides = none;
  dependencies = [];
  outbound_messages = [];
}

abbrev simulating_env : Env
simulating_env = record env {
  has_simulator = true;
  verification_enabled = true;
  simulate_answer = λ _ _ _ _. ok success;
}

abbrev fresh_task : Task
fresh_task = record { pc = reading; world = world }

-- A message for another task comes and goes.
abbrev nine_steps : List Event
nine_steps =
    ticks 0
    ∷ ticks 1
    ∷ notifies
    ∷ ticks 2
    ∷ ticks 3
    ∷ ticks 4
    ∷ ticks 5
    ∷ ticks 6
    ∷ others (takes_mailbox (incoming (65 ∷ [])))
    ∷ ticks 7
    ∷ ticks 8
    ∷ []

votes_to_commit : (react_all simulating_env id1 nine_steps fresh_task).pc ≡ voting true
unfolding react_all react step check_xt_permissions dispatch_outbound_mailbox
votes_to_commit = refl

commit-Justified_example : Justified simulating_env id1 nine_steps fresh_task
commit-Justified_example =
    commit-Justified simulating_env id1 nine_steps world refl refl votes_to_commit

alone_commits_example : (alone simulating_env id1 0 9 fresh_task).pc ≡ voting true
alone_commits_example =
    alone_commits simulating_env id1 ((5 ∷ []) ∷ []) voted_xt 0 world refl (λ log payload. refl)
      (inl refl) (λ log tx overrides fulfilled. (success, refl, refl)) (λ log chain msg. refl) refl
      refl

abbrev attempt : Attempt
attempt = record { tx = 5 ∷ []; later = []; current_overrides = []; fulfilled_deps = [] }

abbrev indexed : World
indexed = record world {
  state = record world.state { mailbox_index = (voted_xt.instance_id, id1) ∷ [] };
}

awaited : IsAwaited env id1 voted_xt (incoming (65 ∷ [])) need [] indexed.state
unfolding matches_dependency decode_session_id
awaited = (refl, refl, refl, refl)

lost_notification_example :
    ((react_all env id1
        (others (takes_mailbox (incoming (65 ∷ []))) ∷ notifies ∷ ticks 3 ∷ expires ∷ [])
        (record { pc = registering attempt (need ∷ []) 9; world = indexed })).pc
      ≡ voting false)
    × (0
        < (fulfill_dependencies_from_mailbox env.codec id1
            (need ∷ [])
            (react_all env id1
              (others (takes_mailbox (incoming (65 ∷ []))) ∷ notifies ∷ ticks 3 ∷ expires ∷ [])
              (record { pc = registering attempt (need ∷ []) 9; world = indexed })).world.state).0)
lost_notification_example =
    lost_notification env id1 voted_xt (incoming (65 ∷ [])) need [] attempt 9 3 indexed awaited

alone_finishes_example : (alone simulating_env id1 0 30 fresh_task).pc ≡ finished
alone_finishes_example = alone_finishes simulating_env id1 30 0 fresh_task (omega arith)
