-- ===== src/Permissions/Evaluation.antt =====
-- `evaluate_xt` of crates/permissions/src/engine.rs against the rule that it carries out.
use sidecar.Prelude.{
  ℕ, ◌≡◌, ◌≢◌, ◌↔◌, ◌⊎◌, refl, sym, ◌∙◌, inl, inr, Bool, true, false, not, ◌&&◌, Option, none, some,
  List, [], ◌∷◌, Bytes, bytes_eq, nat_eq, nat_beq, any, arith, Option-cases, Bool-cases,
}
use sidecar.Prelude.HashSet
use sidecar.Prelude.Map
use sidecar.Prelude.Result.{ok}
use sidecar.Permissions.{
  NetworkScope, RuleGroup, WalletPolicy, PolicySnapshot, Engine, allow, deny, config_unavailable,
  fresh, all, restricted, policy_group, resolve_group, xt_decision, evaluate_xt,
}

-- A restricted group may reach its own chain and the peers that it lists.
abbrev pub GroupPermits : Option RuleGroup → ℕ → List ℕ → Type 0
GroupPermits none home involved = Unit
GroupPermits (some group) home involved =
    group.network_scope ≡ restricted
    → (chain : ℕ) → HashSet.contains chain involved ≡ true
    → chain ≢ home
    → HashSet.contains chain group.allowed_peers ≡ true

-- A wallet that the policy does not know is free; one that it knows belongs to an active entity.
abbrev pub WalletPermits : Option WalletPolicy → ℕ → List ℕ → Type 0
WalletPermits none home involved = Unit
WalletPermits (some wallet) home involved =
    (wallet.entity_active ≡ true) × GroupPermits wallet.group home involved

-- The policy is that of the snapshot at hand, and there is none while the stream is down.
abbrev pub PolicyPermits : Engine → Bytes → ℕ → List ℕ → Type 0
PolicyPermits e sender home involved =
    (snapshot : PolicySnapshot) × (e.connected ≡ true)
    × (e.snapshot ≡ some snapshot)
    × WalletPermits (Map.lookup sender snapshot.wallets) home involved

abbrev blocked : ℕ → List ℕ → ℕ → Bool
blocked home allowed chain = not (nat_beq chain home) && not (HashSet.contains chain allowed)

peers_listed :
    (home : ℕ) (allowed involved : List ℕ)
    → any (blocked home allowed) involved ≡ false
    → (chain : ℕ) → HashSet.contains chain involved ≡ true
    → chain ≢ home
    → HashSet.contains chain allowed ≡ true
peers_listed home allowed [] h chain m n = absurd (ground arith)
peers_listed home allowed (x ∷ xs) h chain m n = ground (
  arith,
  (λ (e : any (blocked home allowed) xs ≡ false) (f : HashSet.contains chain xs ≡ true).
      peers_listed home allowed xs e chain f n),
  same,
)
  where
    same : x ≡ chain → HashSet.contains x allowed ≡ HashSet.contains chain allowed
    same p = λ i. HashSet.contains (p i) allowed

listed_peers :
    (home : ℕ) (allowed involved : List ℕ)
    → ((chain : ℕ)
        → HashSet.contains chain involved ≡ true
        → chain ≢ home
        → HashSet.contains chain allowed ≡ true)
    → any (blocked home allowed) involved ≡ false
listed_peers home allowed [] h = refl
listed_peers home allowed (x ∷ xs) h =
    let rest : any (blocked home allowed) xs ≡ false =
      listed_peers home allowed xs (λ chain m n. h chain (ground arith) n) in
    ground (arith, h x, rest)

scope_cases : (s : NetworkScope) → (s ≡ all) ⊎ (s ≡ restricted)
scope_cases all = inl refl
scope_cases restricted = inr refl

restricted_decision :
    (group : RuleGroup) (home : ℕ) (involved : List ℕ)
    → group.network_scope ≡ restricted
    → (xt_decision (ok (some group)) home involved ≡ allow)
      ↔ (any (blocked home group.allowed_peers) involved ≡ false)
restricted_decision group home involved e = ground arith

all_decision :
    (group : RuleGroup) (home : ℕ) (involved : List ℕ)
    → group.network_scope ≡ all
    → xt_decision (ok (some group)) home involved ≡ allow
all_decision group home involved e = ground arith

group_decision :
    (o : Option RuleGroup) (home : ℕ) (involved : List ℕ)
    → (xt_decision (ok o) home involved ≡ allow) ↔ GroupPermits o home involved
group_decision none home involved = ((λ h. tt), λ h. refl)
group_decision (some group) home involved = elim (scope_cases group.network_scope) [
  | inl e ↦ ((λ h r. absurd (ground arith)), λ h. all_decision group home involved e)
  | inr e ↦
      let (there, back) = restricted_decision group home involved e in
      (
        (λ h r. peers_listed home group.allowed_peers involved (there h)),
        λ h. back (listed_peers home group.allowed_peers involved (h e)),
      )
]

wallet_decision :
    (o : Option WalletPolicy) (home : ℕ) (involved : List ℕ)
    → (xt_decision (policy_group o) home involved ≡ allow) ↔ WalletPermits o home involved
wallet_decision none home involved = ((λ h. tt), λ h. refl)
wallet_decision (some wallet) home involved =
    let (there, back) = group_decision wallet.group home involved in
    elim (Bool-cases wallet.entity_active) [
      | inl e ↦ ((λ h. (e, there (rw e at h))), λ h. rw e (back h.1))
      | inr e ↦ ((λ h. absurd (ground arith)), λ h. absurd (ground arith))
    ]

fresh_cases :
    (e : Engine)
    → ((snapshot : PolicySnapshot) × (e.connected ≡ true) × (e.snapshot ≡ some snapshot))
      ⊎ ((s : PolicySnapshot) → e.connected ≡ true → e.snapshot ≡ some s → ⊥) × (fresh e ≡ none)
fresh_cases e = elim (Bool-cases e.connected) [
  | inr c ↦ inr ((λ s d f. ground arith), rw c refl)
  | inl c ↦ elim (Option-cases e.snapshot) [
    | inl f ↦ inr ((λ s d g. ground arith), ground arith)
    | inr (s, f) ↦ inl (s, c, f)
  ]
]

evaluate_with :
    (e : Engine) (snapshot : PolicySnapshot) (sender : Bytes) (home : ℕ) (involved : List ℕ)
    → e.enabled ≡ true
    → e.connected ≡ true
    → e.snapshot ≡ some snapshot
    → evaluate_xt e sender home involved
      ≡ xt_decision (policy_group (Map.lookup sender snapshot.wallets)) home involved
unfolding evaluate_xt resolve_group
evaluate_with e snapshot sender home involved on c f = rw (on, c, f) refl

evaluate_without :
    (e : Engine) (sender : Bytes) (home : ℕ) (involved : List ℕ)
    → e.enabled ≡ true
    → fresh e ≡ none
    → evaluate_xt e sender home involved ≡ deny config_unavailable
unfolding evaluate_xt resolve_group
evaluate_without e sender home involved on f = ground arith

-- With permissions enabled, a transaction of a sender is allowed exactly when the policy stream is
-- up, a snapshot has come, and it permits the sender: it does not know the wallet, or the entity is
-- active and its group, if it has one, is not restricted or lists every other chain involved.
pub evaluate_xt_iff :
    (e : Engine) (sender : Bytes) (home : ℕ) (involved : List ℕ)
    → e.enabled ≡ true
    → (evaluate_xt e sender home involved ≡ allow) ↔ PolicyPermits e sender home involved
evaluate_xt_iff e sender home involved on = (there, back)
  where
    there : evaluate_xt e sender home involved ≡ allow → PolicyPermits e sender home involved
    there h = elim (fresh_cases e) [
      | inl (s, c, f) ↦
          let decide : evaluate_xt e sender home involved
              ≡ xt_decision (policy_group (Map.lookup sender s.wallets)) home involved =
            evaluate_with e s sender home involved on c f in
          (
            s,
            c,
            f,
            (wallet_decision (Map.lookup sender s.wallets) home involved).0 (sym decide ∙ h),
          )
      | inr (n, f) ↦ absurd (ground (arith, evaluate_without e sender home involved on f))
    ]

    back : PolicyPermits e sender home involved → evaluate_xt e sender home involved ≡ allow
    back (s, c, f, p) =
        evaluate_with e s sender home involved on c f
        ∙ (wallet_decision (Map.lookup sender s.wallets) home involved).1 p
