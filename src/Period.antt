-- ===== src/Period.antt =====
-- crates/coordinator/coordinator/src/model/publisher_period.rs: `PublisherPeriod`, which admits the
-- instances that the publisher starts.
pub mod Admission
mod Tests
use sidecar.Prelude.{ℕ, Option, none, some, ltb, leb, if◌then◌else◌}
use sidecar.Prelude.Result.{Result, ok, err}
use sidecar.Errors.{
  CoordinatorError, period_not_initialized, stale_period, future_period, stale_sequence,
}

pub record PublisherPeriod : Type 0 where
  pub current : Option ℕ
  pub last_sequence : Option ℕ

-- `PublisherPeriod::default()`
abbrev pub idle : PublisherPeriod
idle = record { current = none; last_sequence = none }

unfoldable pub start : ℕ → PublisherPeriod → PublisherPeriod
start period_id p = record { current = some period_id; last_sequence = none }

unfoldable pub close : PublisherPeriod → PublisherPeriod
close p = idle

-- The sequence test, once the period is the current one.
advance : Option ℕ → ℕ → PublisherPeriod → Result CoordinatorError PublisherPeriod
advance none sequence_number p = ok (record p { last_sequence = some sequence_number })
advance (some last) sequence_number p =
    if leb sequence_number last
    then err (stale_sequence last sequence_number)
    else ok (record p { last_sequence = some sequence_number })

accept_in : Option ℕ → ℕ → ℕ → PublisherPeriod → Result CoordinatorError PublisherPeriod
unfolding advance
accept_in none period_id sequence_number p = err period_not_initialized
accept_in (some current) period_id sequence_number p =
    if ltb period_id current
    then err (stale_period current period_id)
    else if ltb current period_id
    then err (future_period current period_id)
    else advance p.last_sequence sequence_number p

-- An error leaves the period as it was.
unfoldable pub accept_start_instance :
    ℕ → ℕ → PublisherPeriod → Result CoordinatorError PublisherPeriod
unfolding accept_in
accept_start_instance period_id sequence_number p = accept_in p.current period_id sequence_number p
