-- ===== src/Simulation/Diff/Effect.antt =====
-- `state_overrides_from_diff` of crates/simulation/src/rpc.rs: what a reader of the overrides finds.
use sidecar.Prelude.{
  ◌≡◌, is_some, refl, sym, subst, ◌∙◌, true, false, Option, none, some, [], ◌∷◌, Bytes, bytes_eq,
  bytes_beq, bytes_beq_iff, arith, if◌then◌else◌, Bool-cases, inl, inr,
}
use sidecar.Prelude.Map
use sidecar.Prelude.Map.{Map, map_option}
use sidecar.Mailbox.Overrides.{SlotMap, AccountOverride, StateOverride, or_older}
use sidecar.Simulation.Diff.{
  AccountState, DiffMode, zero_word, clear_slots, diff_of, some_nonempty, account_override,
  says_something, add_account, add_posts, destroyed, add_destroyed, state_overrides_from_diff,
}

-- An account in overrides, and a slot in an account's, that may be missing.
abbrev pub look {ℓ} : {V : Type ℓ} → Bytes → Option (Map Bytes V) → Option V
look key none = none
look key (some m) = Map.lookup key m

abbrev pub slot_in : Bytes → Option AccountOverride → Option Bytes
slot_in slot none = none
slot_in slot (some account) = look slot account.state_diff

abbrev pub slot_before : Bytes → Option AccountState → Option Bytes
slot_before slot none = none
slot_before slot (some account) = Map.lookup slot account.storage

look-some_nonempty {ℓ} :
    {V : Type ℓ} (key : Bytes) (m : Map Bytes V) → look key (some_nonempty m) ≡ Map.lookup key m
look-some_nonempty key [] = refl
look-some_nonempty key (x ∷ m) = refl

clear_slots_lem :
    (slot : Bytes) (storage state_diff : SlotMap)
    → Map.lookup slot (clear_slots storage state_diff)
      ≡ or_older
          (Map.lookup slot state_diff)
          (map_option (λ _. zero_word) (Map.lookup slot storage))
clear_slots_lem slot [] state_diff = ground arith
clear_slots_lem slot ((k, v) ∷ storage) state_diff = ground (
  arith,
  clear_slots_lem slot storage
      (if Map.contains_key k state_diff then state_diff else Map.insert k zero_word state_diff),
  Map.lookup-insert k slot zero_word state_diff,
  bytes_beq_iff k slot,
  same,
)
  where
    same : k ≡ slot → Map.lookup k state_diff ≡ Map.lookup slot state_diff
    same e = λ i. Map.lookup (e i) state_diff

diff_of_lem :
    (slot : Bytes) (o : Option AccountState) (post_state : AccountState)
    → Map.lookup slot (diff_of o post_state)
      ≡ or_older
          (Map.lookup slot post_state.storage)
          (map_option (λ _. zero_word) (slot_before slot o))
diff_of_lem slot none post_state = ground arith
diff_of_lem slot (some pre_state) post_state =
    clear_slots_lem slot pre_state.storage post_state.storage

-- An override that says nothing is not entered.
abbrev place : AccountOverride → Option AccountOverride → Option AccountOverride
place account old = if says_something account then some account else old

add_account_lem :
    (a address : Bytes) (account : AccountOverride) (overrides : StateOverride)
    → Map.lookup a (add_account address account overrides) ≡ (
        if bytes_beq address a
        then place account (Map.lookup a overrides)
        else Map.lookup a overrides)
add_account_lem a address account overrides =
    ground (arith, Map.lookup-insert address a account overrides)

abbrev placed :
    Option AccountState → Option AccountState → Option AccountOverride → Option AccountOverride
placed pre_state none old = old
placed pre_state (some post_state) old = place (account_override pre_state post_state) old

abbrev IsPlaced : Bytes → Map Bytes AccountState → Map Bytes AccountState → StateOverride → Type 0
IsPlaced a post pre overrides =
    (Map.lookup a (add_posts post pre overrides).0
      ≡ (if Map.contains_key a post then none else Map.lookup a pre))
    × (Map.lookup a (add_posts post pre overrides).1
        ≡ placed (Map.lookup a pre) (Map.lookup a post) (Map.lookup a overrides))

-- One round of the loop, from what the later rounds do.
add_posts_step :
    (a j : Bytes) (p : AccountState) (post pre : Map Bytes AccountState) (overrides : StateOverride)
    → Map.contains_key j post ≡ false
    → IsPlaced a post
        (Map.remove j pre)
        (add_account j (account_override (Map.lookup j pre) p) overrides)
    → IsPlaced a ((j, p) ∷ post) pre overrides
unfolding add_posts
add_posts_step a j p post pre overrides fresh rest = elim (Bool-cases (bytes_beq j a)) [
  | inl e ↦
      let missing : Map.lookup a post ≡ none =
        ground (arith, same (Map.lookup {V = AccountState}) post (at_a e), fresh) in
      let before : Map.lookup j pre ≡ Map.lookup a pre = λ i. Map.lookup (at_a e i) pre in
      (
        rest.0 ∙ ground (arith, missing, Map.lookup-remove j a pre, e),
        rest.1
            ∙ rw missing (
                added ∙ rw e (λ i. place (account_override (before i) p) (Map.lookup a overrides))),
      )
  | inr e ↦ (
    rest.0 ∙ rw e (λ i. if Map.contains_key a post then none else removed e i),
    rest.1 ∙ (λ i. placed (removed e i) (Map.lookup a post) (left e i)) ∙ rw e refl,
  )
]
  where
    account : AccountOverride
    account = account_override (Map.lookup j pre) p

    added :
        Map.lookup a (add_account j account overrides)
        ≡ (if bytes_beq j a then place account (Map.lookup a overrides) else Map.lookup a overrides)
    added = add_account_lem a j account overrides

    at_a : bytes_beq j a ≡ true → j ≡ a
    at_a e = (bytes_beq_iff j a).0 e

    same :
        (f : Bytes → Map Bytes AccountState → Option AccountState) (m : Map Bytes AccountState)
        → j ≡ a
        → f j m ≡ f a m
    same f m q = λ i. f (q i) m

    removed : bytes_beq j a ≡ false → Map.lookup a (Map.remove j pre) ≡ Map.lookup a pre
    removed e = ground (arith, Map.lookup-remove j a pre)

    left :
        bytes_beq j a ≡ false
        → Map.lookup a (add_account j account overrides) ≡ Map.lookup a overrides
    left e = added ∙ rw e refl

add_posts_lem :
    (a : Bytes) (post pre : Map Bytes AccountState) (overrides : StateOverride)
    → Map.HasDistinctKeys post
    → IsPlaced a post pre overrides
unfolding add_posts
add_posts_lem a [] pre overrides d = (refl, refl)
add_posts_lem a ((j, p) ∷ post) pre overrides d = add_posts_step a j p post pre overrides d.0 (
    add_posts_lem a post (Map.remove j pre)
      (add_account j (account_override (Map.lookup j pre) p) overrides) d.1)

add_destroyed_lem :
    (a : Bytes) (pre : Map Bytes AccountState) (overrides : StateOverride)
    → Map.lookup a (add_destroyed pre overrides)
      ≡ (if Map.contains_key a pre then some destroyed else Map.lookup a overrides)
unfolding add_destroyed
add_destroyed_lem a [] overrides = refl
add_destroyed_lem a ((j, q) ∷ pre) overrides = ground (
  arith,
  add_destroyed_lem a pre (Map.insert j destroyed overrides),
  Map.lookup-insert j a destroyed overrides,
)

abbrev pub field_in {ℓ} :
    {V : Type ℓ} → (AccountOverride → Option V) → Option AccountOverride → Option V
field_in f none = none
field_in f (some account) = f account

-- By an account's states before and after: the override has the scalars and the slots after, and
-- zero in a slot that is gone; of an account that is gone balance and nonce are zero, and code and
-- storage are replaced by nothing; no other account is touched.
abbrev pub Carries : Option AccountState → Option AccountState → Option AccountOverride → Type 0
Carries none none account = account ≡ none
Carries (some before) none account =
    account
    ≡ some (record {
      balance = some 0;
      nonce = some 0;
      code = some [];
      state = some [];
      state_diff = none;
    })
Carries before (some after) account =
    (field_in (λ o. o.balance) account ≡ after.balance)
    × (field_in (λ o. o.nonce) account ≡ after.nonce)
    × (field_in (λ o. o.code) account ≡ after.code)
    × (field_in (λ o. o.state) account ≡ none)
    × ((slot : Bytes)
        → slot_in slot account
          ≡ or_older (Map.lookup slot after.storage)
              (map_option (λ _. zero_word) (slot_before slot before)))

placed-Carries :
    (before : Option AccountState) (after : AccountState)
    → Carries before (some after) (place (account_override before after) none)
placed-Carries before after = (
  ground arith,
  ground arith,
  ground arith,
  ground arith,
  λ slot. slots slot ∙ diff_of_lem slot before after,
)
  where
    slots :
        (slot : Bytes)
        → slot_in slot (place (account_override before after) none)
          ≡ Map.lookup slot (diff_of before after)
    slots slot = ground (arith, look-some_nonempty slot (diff_of before after))

abbrev final_account : Option AccountState → Option AccountState → Option AccountOverride
final_account before none = if is_some before then some destroyed else none
final_account before (some after) = place (account_override before after) none

final_account-Carries :
    (before after : Option AccountState) → Carries before after (final_account before after)
final_account-Carries none none = refl
final_account-Carries (some before) none = refl
final_account-Carries none (some after) = placed-Carries none after
final_account-Carries (some before) (some after) = placed-Carries (some before) after

look-final :
    (d : DiffMode) (a : Bytes)
    → Map.HasDistinctKeys d.post
    → look a (state_overrides_from_diff d)
      ≡ final_account (Map.lookup a d.pre) (Map.lookup a d.post)
unfolding state_overrides_from_diff
look-final d a distinct =
    look-some_nonempty a (add_destroyed left.0 left.1)
    ∙ add_destroyed_lem a left.0 left.1
    ∙ finish (Map.lookup a d.post) refl
  where
    left : Map Bytes AccountState × StateOverride
    left = add_posts d.post d.pre []

    posts : IsPlaced a d.post d.pre []
    posts = add_posts_lem a d.post d.pre [] distinct

    finish :
        (o : Option AccountState)
        → Map.lookup a d.post ≡ o
        → (if Map.contains_key a left.0 then some destroyed else Map.lookup a left.1)
          ≡ final_account (Map.lookup a d.pre) o
    finish none e = ground (arith, posts)
    finish (some after) e = ground (arith, posts)

-- For every address, the overrides made from the tracer's difference carry the account from its state
-- before to its state after, cleared slots and destroyed accounts included.
pub state_overrides_from_diff-Carries :
    (d : DiffMode) (address : Bytes)
    → Map.HasDistinctKeys d.post
    → Carries
        (Map.lookup address d.pre)
        (Map.lookup address d.post)
        (look address (state_overrides_from_diff d))
state_overrides_from_diff-Carries d address distinct =
    subst (Carries (Map.lookup address d.pre) (Map.lookup address d.post))
      (sym (look-final d address distinct))
      (final_account-Carries (Map.lookup address d.pre) (Map.lookup address d.post))
