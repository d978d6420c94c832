-- ===== src/Permissions/Updates.antt =====
-- `ConfigStreamHandler` of crates/permissions/src/stream.rs over whole streams of events.
use sidecar.Prelude.{
  ℕ, ◌≡◌, refl, ap, ◌∙◌, true, false, Option, none, some, List, [], ◌∷◌, Bytes, bytes_beq, bytes_eq,
  if◌then◌else◌, Bool-cases, inl, inr,
}
use sidecar.Prelude.Text.{codes}
use sidecar.Prelude.Result.{Result, ok, err}
use sidecar.Permissions.{
  PolicySnapshot, SnapshotError, Engine, deny, config_unavailable, resolve_group, evaluate_xt,
  StreamEvent, connects, disconnects, frame, bad_frame, from_wire, store_result, set_connected,
  handle, handle_all,
}

-- The stream does not come up again.
abbrev pub StaysDown : List StreamEvent → Type 0
StaysDown [] = Unit
StaysDown (connects ∷ events) = ⊥
StaysDown (_ ∷ events) = StaysDown events

-- The first, or else the second.
abbrev pub newer : Option PolicySnapshot → Option PolicySnapshot → Option PolicySnapshot
newer none old = old
newer (some s) old = some s

abbrev as_option : Result SnapshotError PolicySnapshot → Option PolicySnapshot
as_option (err e) = none
as_option (ok s) = some s

module _ (parse_address : Bytes → Option Bytes) where
  -- The snapshot that an event brings: none if the frame is malformed or of another kind.
  abbrev brings : StreamEvent → Option PolicySnapshot
  brings (frame kind payload now) =
      if bytes_beq kind (codes "snapshot")
      then as_option (from_wire parse_address payload now)
      else none
  brings _ = none

  -- The snapshot of the last event that brings one.
  abbrev pub last_brought : List StreamEvent → Option PolicySnapshot
  last_brought [] = none
  last_brought (event ∷ events) = newer (last_brought events) (brings event)

  pub handle_fields :
      (event : StreamEvent) (e : Engine)
      → ((handle parse_address event e).enabled ≡ e.enabled)
        × ((handle parse_address event e).snapshot ≡ newer (brings event) e.snapshot)
  unfolding handle
  handle_fields connects e = (refl, refl)
  handle_fields disconnects e = (refl, refl)
  handle_fields (frame kind payload now) e = elim (Bool-cases (bytes_beq kind (codes "snapshot"))) [
    | inl b ↦ rw b (stored (from_wire parse_address payload now))
    | inr b ↦ rw b (refl, refl)
  ]
    where
      stored :
          (r : Result SnapshotError PolicySnapshot)
          → ((store_result r e).enabled ≡ e.enabled)
            × ((store_result r e).snapshot ≡ newer (as_option r) e.snapshot)
      stored (ok s) = (refl, refl)
      stored (err x) = (refl, refl)
  handle_fields bad_frame e = (refl, refl)

  newer_assoc : (a b c : Option PolicySnapshot) → newer a (newer b c) ≡ newer (newer a b) c
  newer_assoc none b c = refl
  newer_assoc (some s) b c = refl

  -- Whatever the stream sends, the engine holds the snapshot of the last well-formed snapshot frame,
  -- or the one it had before if there is none: a malformed or unknown frame changes nothing.
  pub handle_all-last_brought :
      (events : List StreamEvent) (e : Engine)
      → (handle_all parse_address events e).snapshot ≡ newer (last_brought events) e.snapshot
  unfolding handle_all
  handle_all-last_brought [] e = refl
  handle_all-last_brought (event ∷ events) e =
      handle_all-last_brought events (handle parse_address event e)
      ∙ ap (newer (last_brought events)) (handle_fields event e).1
      ∙ newer_assoc (last_brought events) (brings event) e.snapshot

  down_event :
      (event : StreamEvent) (events : List StreamEvent) (e : Engine)
      → StaysDown (event ∷ events)
      → e.connected ≡ false
      → ((handle parse_address event e).connected ≡ false) × StaysDown events
  unfolding handle
  down_event connects events e d c = absurd d
  down_event disconnects events e d c = (refl, d)
  down_event (frame kind payload now) events e d c = (
    elim (Bool-cases (bytes_beq kind (codes "snapshot"))) [
      | inl b ↦ rw b (stored (from_wire parse_address payload now))
      | inr b ↦ rw b c
    ],
    d,
  )
    where
      stored : (r : Result SnapshotError PolicySnapshot) → (store_result r e).connected ≡ false
      stored (ok s) = c
      stored (err x) = c
  down_event bad_frame events e d c = (c, d)

  pub down_denies :
      (events : List StreamEvent) (e : Engine) (sender : Bytes) (home : ℕ) (involved : List ℕ)
      → e.enabled ≡ true
      → e.connected ≡ false
      → StaysDown events
      → evaluate_xt (handle_all parse_address events e) sender home involved
        ≡ deny config_unavailable
  unfolding handle_all evaluate_xt resolve_group
  down_denies [] e sender home involved on c d = rw (on, c) refl
  down_denies (event ∷ events) e sender home involved on c d =
      let (c', d') = down_event event events e d c in
      down_denies events (handle parse_address event e) sender home involved
        ((handle_fields event e).0 ∙ on) c' d'

  -- After the stream has gone down, and whatever comes until it is up again, an engine with
  -- permissions enabled denies every cross-rollup transaction.
  pub disconnected_denies :
      (events : List StreamEvent) (e : Engine) (sender : Bytes) (home : ℕ) (involved : List ℕ)
      → e.enabled ≡ true
      → StaysDown events
      → evaluate_xt (handle_all parse_address (disconnects ∷ events) e) sender home involved
        ≡ deny config_unavailable
  unfolding handle_all handle
  disconnected_denies events e sender home involved on d =
      down_denies events (set_connected false e) sender home involved on refl d
