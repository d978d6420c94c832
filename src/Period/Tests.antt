-- ===== src/Period/Tests.antt =====
-- Instances of the theorems on the publisher's periods.
use sidecar.Prelude.{refl, some, List, [], ◌∷◌}
use sidecar.Period.{PublisherPeriod}
use sidecar.Period.Admission.{Event, instances, admitted, RisesIn, admitted-RisesIn}

abbrev third : PublisherPeriod
third = record { current = some 3; last_sequence = some 4 }

abbrev fifth : PublisherPeriod
fifth = record { current = some 3; last_sequence = some 5 }

-- A repeated number, a number out of order and another period among two that are admitted.
abbrev events : List Event
events = instances 3 5 ∷ instances 3 5 ∷ instances 2 9 ∷ instances 3 8 ∷ instances 3 6 ∷ []

admitted-RisesIn_example : RisesIn 3 (some 4) (admitted third events)
admitted-RisesIn_example = admitted-RisesIn events third 3 tt refl
