-- ===== src/PolicyStream/Between.antt =====
-- What holds between two connections of the policy stream.
use sidecar.Prelude.{
  ℕ, ◌≡◌, refl, ap, ◌∙◌, Bool, true, false, none, some, Option, List, [], ◌∷◌, ◌++◌, Bytes, any,
  nat_beq, if◌then◌else◌, Bool-cases, inl, inr,
}
use sidecar.Prelude.Text.{codes, decimal}
use sidecar.Permissions.{
  PolicySnapshot, SnapshotData, Engine, new, StreamEvent, disconnects, handle, handle_all,
  evaluate_xt, deny, config_unavailable,
}
use sidecar.Permissions.Updates.{
  last_brought, newer, handle_fields, handle_all-last_brought, down_denies,
}
use sidecar.PolicyStream.{
  WsClient, connect_url, version_of, since, Attempt, stream_once, run, next_url,
}

-- The address that asks for what came after a snapshot; without one it is the bare address.
abbrev pub resumed : Bytes → Option PolicySnapshot → Bytes
resumed base none = base
resumed base (some snapshot) =
    base
    ++ ((if any (λ b. nat_beq b b'?') base then codes "&since=" else codes "?since=")
        ++ decimal snapshot.version)

connect_url_lem :
    (this : WsClient) (o : Option PolicySnapshot)
    → connect_url this (since (version_of o)) ≡ resumed this.base_url o
connect_url_lem this none = refl
connect_url_lem this (some snapshot) = elim (Bool-cases (any (λ b. nat_beq b b'?') this.base_url)) [
  | inl e ↦ rw e refl
  | inr e ↦ rw e refl
]

newer-none : (o : Option PolicySnapshot) → newer o none ≡ o
newer-none none = refl
newer-none (some s) = refl

module _ (is_utf8 : Bytes → Bool) (parse : Bytes → Option (Bytes × SnapshotData × ℕ))
    (parse_address : Bytes → Option Bytes) where
  handle_all-append :
      (xs ys : List StreamEvent) (e : Engine)
      → handle_all parse_address (xs ++ ys) e
        ≡ handle_all parse_address ys (handle_all parse_address xs e)
  unfolding handle_all
  handle_all-append [] ys e = refl
  handle_all-append (x ∷ xs) ys e = handle_all-append xs ys (handle parse_address x e)

  handle_all-enabled :
      (xs : List StreamEvent) (e : Engine) → (handle_all parse_address xs e).enabled ≡ e.enabled
  unfolding handle_all
  handle_all-enabled [] e = refl
  handle_all-enabled (x ∷ xs) e =
      handle_all-enabled xs (handle parse_address x e) ∙ (handle_fields parse_address x e).0

  run-connected :
      (attempts : List Attempt) (e : Engine)
      → e.connected ≡ false
      → (handle_all parse_address (run is_utf8 parse attempts) e).connected ≡ false
  unfolding run handle_all handle
  run-connected [] e h = h
  run-connected (attempt ∷ attempts) e h =
      ap (λ (s : Engine). s.connected)
        (handle_all-append (stream_once is_utf8 parse attempt)
          (disconnects ∷ run is_utf8 parse attempts) e)
      ∙ run-connected attempts
          (handle parse_address disconnects
            (handle_all parse_address (stream_once is_utf8 parse attempt) e))
          refl

  -- However the connections so far went, before the next one is established an engine with permissions
  -- enabled denies every cross-rollup transaction, and the next connection goes to the base address
  -- with `since=` and the version of the last well-formed snapshot behind `?`, or behind `&` if the
  -- base address has a `?`; to the base address alone if no snapshot has come.
  pub between_connections :
      (this : WsClient) (attempts : List Attempt) (sender : Bytes) (home : ℕ) (involved : List ℕ)
      → (evaluate_xt
            (handle_all parse_address (run is_utf8 parse attempts) (new true))
            sender
            home
            involved
          ≡ deny config_unavailable)
        × (next_url is_utf8 parse parse_address this attempts (new true)
            ≡ resumed this.base_url (last_brought parse_address (run is_utf8 parse attempts)))
  unfolding handle_all next_url
  between_connections this attempts sender home involved = (
    down_denies parse_address [] after sender home involved
        (handle_all-enabled (run is_utf8 parse attempts) (new true))
        (run-connected attempts (new true) refl) tt,
    connect_url_lem this after.snapshot
        ∙ ap (resumed this.base_url) (
            handle_all-last_brought parse_address (run is_utf8 parse attempts) (new true)
            ∙ newer-none (last_brought parse_address (run is_utf8 parse attempts))),
  )
    where
      after : Engine
      after = handle_all parse_address (run is_utf8 parse attempts) (new true)
