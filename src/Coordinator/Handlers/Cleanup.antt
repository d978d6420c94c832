-- ===== src/Coordinator/Handlers/Cleanup.antt =====
-- `cleanup` of coordinator.rs: decided transactions are dropped after a while, and what refers to
-- them with them.
pub mod Early
use sidecar.Prelude.{
  ℕ, ◌-◌, Bool, true, Option, none, some, List, [], ◌∷◌, Bytes, bytes_eq, leb, if◌then◌else◌,
}
use sidecar.Prelude.Map
use sidecar.Prelude.Map.{Map}
use sidecar.Mailbox.Overrides.{or_older}
use sidecar.Coordinator.Xt.{PendingXt}
use sidecar.Coordinator.State.{CoordinatorState, prune_submissions}
use sidecar.Coordinator.World.{Env, M, ◌>>=◌, reads, locked}

-- `is_none_or(|t| now.duration_since(t) <= max_age)`
abbrev is_young : ℕ → ℕ → Option ℕ → Bool
is_young now max_age none = true
is_young now max_age (some t) = leb (now - t) max_age

abbrev pub keeps : ℕ → ℕ → PendingXt → Bool
keeps now max_age xt = is_young now max_age (or_older xt.confirmed_at xt.decided_at)

pub removed_raw_ids : ℕ → ℕ → Map Bytes PendingXt → List Bytes
removed_raw_ids now max_age [] = []
removed_raw_ids now max_age ((id, xt) ∷ m) =
    if keeps now max_age xt
    then removed_raw_ids now max_age m
    else xt.instance_id ∷ removed_raw_ids now max_age m

pub remove_all : List Bytes → Map Bytes Bytes → Map Bytes Bytes
remove_all [] index = index
remove_all (raw_id ∷ ids) index = remove_all ids (Map.remove raw_id index)

unfoldable pub cleanup_section : (ℕ → Bool) → ℕ → ℕ → CoordinatorState → CoordinatorState
unfolding removed_raw_ids remove_all prune_submissions
cleanup_section is_closed now max_age s =
    let pending = Map.retain (λ _ xt. keeps now max_age xt) s.pending in
    let index = remove_all (removed_raw_ids now max_age s.pending) s.mailbox_index in
    record s {
      pending = pending;
      mailbox_index = index;
      submitted_fingerprints =
          Map.retain (λ _ id. Map.contains_key id pending) s.submitted_fingerprints;
      pending_submissions = prune_submissions is_closed s.pending_submissions;
      mailbox_buffer = Map.retain (λ key _. Map.contains_key key index) s.mailbox_buffer;
    }

abbrev cleanup : Env → (ℕ → Bool) → ℕ → M (Unit {0})
unfolding cleanup_section
cleanup env is_closed max_age = do
  now ← reads (λ w. env.clock w.log)
  locked (λ s. (tt, cleanup_section is_closed now max_age s))
