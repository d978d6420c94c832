-- ===== src/Coordinator/Xt/Status.antt =====
-- What the reported status says, and that the order of transactions is a strict total order.
use sidecar.Prelude.{
  ◌≡◌, refl, ◌↔◌, ◌≢◌, ◌⊎◌, inl, inr, true, false, none, some, [], ◌∷◌, Bytes, arith, is_some,
}
use sidecar.Coordinator.Xt.{
  PendingXt, voted, committed, aborted, bytes_less, xt_less, determine_xt_status,
}

-- `committed` is reported exactly when the decision is to commit and the builder has confirmed the
-- inclusion; `aborted` exactly when the decision is to abort; and `voted` exactly when a commit is
-- not yet confirmed or the vote is out and no decision is known.
pub determine_xt_status_iff :
    (xt : PendingXt)
    → ((determine_xt_status xt ≡ committed)
        ↔ ((xt.decision ≡ some true) × (is_some xt.confirmed_at ≡ true)))
      × ((determine_xt_status xt ≡ aborted) ↔ (xt.decision ≡ some false))
      × ((determine_xt_status xt ≡ voted) ↔ (
          ((xt.decision ≡ some true) × (is_some xt.confirmed_at ≡ false))
          ⊎ ((xt.decision ≡ none) × (xt.vote_sent ≡ true))))
unfolding determine_xt_status
determine_xt_status_iff xt = ground arith

bytes_less_irrefl : (a : Bytes) → bytes_less a a ≡ false
unfolding bytes_less
bytes_less_irrefl [] = refl
bytes_less_irrefl (x ∷ xs) = ground (arith, bytes_less_irrefl xs)

bytes_less_trans :
    (a b c : Bytes) → bytes_less a b ≡ true → bytes_less b c ≡ true → bytes_less a c ≡ true
unfolding bytes_less
bytes_less_trans [] [] c h k = absurd (ground arith)
bytes_less_trans [] (y ∷ ys) [] h k = absurd (ground arith)
bytes_less_trans [] (y ∷ ys) (z ∷ zs) h k = refl
bytes_less_trans (x ∷ xs) [] c h k = absurd (ground arith)
bytes_less_trans (x ∷ xs) (y ∷ ys) [] h k = absurd (ground arith)
bytes_less_trans (x ∷ xs) (y ∷ ys) (z ∷ zs) h k = ground (arith, bytes_less_trans xs ys zs)

bytes_less_total : (a b : Bytes) → (a ≡ b) ⊎ (bytes_less a b ≡ true) ⊎ (bytes_less b a ≡ true)
unfolding bytes_less
bytes_less_total [] [] = inl refl
bytes_less_total [] (y ∷ ys) = inr (inl refl)
bytes_less_total (x ∷ xs) [] = inr (inr refl)
bytes_less_total (x ∷ xs) (y ∷ ys) = ground (arith, bytes_less_total xs ys)

-- The canonical order never puts a transaction before itself, is transitive, and orders any two
-- transactions with different ids one way or the other.
pub xt_less_strict_total :
    (a b c : PendingXt)
    → (xt_less a.id a a.id a ≡ false)
      × (xt_less a.id a b.id b ≡ true → xt_less b.id b c.id c ≡ true → xt_less a.id a c.id c ≡ true)
      × (a.id ≢ b.id → (xt_less a.id a b.id b ≡ true) ⊎ (xt_less b.id b a.id a ≡ true))
unfolding xt_less
xt_less_strict_total a b c = (
  ground (arith, bytes_less_irrefl a.id),
  (λ h k. ground (arith, bytes_less_trans a.id b.id c.id)),
  λ h. ground (arith, bytes_less_total a.id b.id),
)
