-- ===== src/Coordinator/Submission/Order.antt =====
-- `build_xt_request` and `xt_request_fingerprint` of pipeline/submission.rs do not depend on the
-- order in which a `HashMap` is iterated.
use sidecar.Prelude.{
  ℕ, ◌<◌, ◌≡◌, refl, ap, sym, ◌∙◌, Bool, true, false, ◌||◌, Option, none, some, List, [], ◌∷◌,
  Bytes, arith, nat_eq, nat_beq, leb, is_some, Bool-cases, inl, inr,
}
use sidecar.Prelude.Map
use sidecar.Prelude.Map.{Map}
use sidecar.Coordinator.World.{Env, XtRequest}
use sidecar.Coordinator.Submission.{
  insert_sorted, sort, add_request, requests, build_xt_request, xt_request_fingerprint,
}

abbrev elem : ℕ → List ℕ → Bool
elem n [] = false
elem n (x ∷ xs) = nat_beq x n || elem n xs

-- Strictly ascending.
abbrev pub IsAscending : List ℕ → Type 0
IsAscending [] = Unit
IsAscending (x ∷ xs) = ((n : ℕ) → elem n xs ≡ true → x < n) × IsAscending xs

abbrev HasNoRepeat : List ℕ → Type 0
HasNoRepeat [] = Unit
HasNoRepeat (x ∷ xs) = (elem x xs ≡ false) × HasNoRepeat xs

elem-insert_sorted :
    (n a : ℕ) (xs : List ℕ) → elem n (insert_sorted a xs) ≡ (nat_beq a n || elem n xs)
unfolding insert_sorted
elem-insert_sorted n a [] = refl
elem-insert_sorted n a (x ∷ xs) = ground (arith, elem-insert_sorted n a xs)

elem-sort : (n : ℕ) (xs : List ℕ) → elem n (sort xs) ≡ elem n xs
unfolding sort
elem-sort n [] = refl
elem-sort n (x ∷ xs) = ground (arith, elem-insert_sorted n x (sort xs), elem-sort n xs)

insert_sorted-IsAscending :
    (a : ℕ) (xs : List ℕ) → elem a xs ≡ false → IsAscending xs → IsAscending (insert_sorted a xs)
unfolding insert_sorted
insert_sorted-IsAscending a [] f h = ((λ n e. absurd (ground arith)), tt)
insert_sorted-IsAscending a (x ∷ xs) f h = elim (Bool-cases (leb a x)) [
  | inl b ↦ rw b (first_least b, h)
  | inr b ↦ rw b (rest_least (ground arith), insert_sorted-IsAscending a xs (ground arith) h.1)
]
  where
    first_least : leb a x ≡ true → (n : ℕ) → elem n (x ∷ xs) ≡ true → a < n
    first_least l n e = ground (arith, h.0 n)

    rest_least : x < a → (n : ℕ) → elem n (insert_sorted a xs) ≡ true → x < n
    rest_least l n e = ground (arith, h.0 n, elem-insert_sorted n a xs)

sort-IsAscending : (xs : List ℕ) → HasNoRepeat xs → IsAscending (sort xs)
unfolding sort
sort-IsAscending [] h = tt
sort-IsAscending (x ∷ xs) h =
    insert_sorted-IsAscending x (sort xs) (elem-sort x xs ∙ h.0) (sort-IsAscending xs h.1)

-- An ascending list is determined by its elements.
ascending_unique :
    (xs ys : List ℕ) → IsAscending xs → IsAscending ys → ((n : ℕ) → elem n xs ≡ elem n ys) → xs ≡ ys
ascending_unique [] [] h k e = refl
ascending_unique [] (y ∷ ys) h k e = absurd (ground (arith, e y))
ascending_unique (x ∷ xs) [] h k e = absurd (ground (arith, e x))
ascending_unique (x ∷ xs) (y ∷ ys) h k e =
    let same : x ≡ y = ground (arith, e x, e y, h.0 y, k.0 x) in
    (λ i. same i ∷ ascending_unique xs ys h.1 k.1 (rest same) i)
  where
    rest : x ≡ y → (n : ℕ) → elem n xs ≡ elem n ys
    rest same n = ground (arith, e n, h.0 n, k.0 n)

-- The same map, whatever order it is iterated in.
abbrev pub IsSameMap : Map ℕ (List Bytes) → Map ℕ (List Bytes) → Type 0
IsSameMap m n = (k : ℕ) → Map.lookup k m ≡ Map.lookup k n

elem-keys : (n : ℕ) (m : Map ℕ (List Bytes)) → elem n (Map.keys m) ≡ Map.contains_key n m
elem-keys n [] = refl
elem-keys n ((k, txs) ∷ m) = ground (arith, elem-keys n m)

keys-HasNoRepeat : (m : Map ℕ (List Bytes)) → Map.HasDistinctKeys m → HasNoRepeat (Map.keys m)
keys-HasNoRepeat [] d = tt
keys-HasNoRepeat ((k, txs) ∷ m) d = (elem-keys k m ∙ d.0, keys-HasNoRepeat m d.1)

requests_same :
    (m n : Map ℕ (List Bytes)) (ids : List ℕ) → IsSameMap m n → requests m ids ≡ requests n ids
unfolding requests
requests_same m n [] s = refl
requests_same m n (c ∷ ids) s = λ i. add_request c (s c i) (requests_same m n ids s i)

sort-keys_same :
    (m n : Map ℕ (List Bytes))
    → Map.HasDistinctKeys m
    → Map.HasDistinctKeys n
    → IsSameMap m n
    → sort (Map.keys m) ≡ sort (Map.keys n)
sort-keys_same m n d e s =
    ascending_unique (sort (Map.keys m)) (sort (Map.keys n))
      (sort-IsAscending (Map.keys m) (keys-HasNoRepeat m d))
      (sort-IsAscending (Map.keys n) (keys-HasNoRepeat n e)) same_elements
  where
    same_elements : (k : ℕ) → elem k (sort (Map.keys m)) ≡ elem k (sort (Map.keys n))
    same_elements k =
        elem-sort k (Map.keys m)
        ∙ elem-keys k m
        ∙ ap is_some (s k)
        ∙ sym (elem-keys k n)
        ∙ sym (elem-sort k (Map.keys n))

build_xt_request_same :
    (m n : Map ℕ (List Bytes))
    → Map.HasDistinctKeys m
    → Map.HasDistinctKeys n
    → IsSameMap m n
    → build_xt_request m ≡ build_xt_request n
unfolding build_xt_request
build_xt_request_same m n d e s =
    ap (requests m) (sort-keys_same m n d e s) ∙ requests_same m n (sort (Map.keys n)) s

pub chains : XtRequest → List ℕ
chains [] = []
chains ((c, txs) ∷ reqs) = c ∷ chains reqs

add_request-IsAscending :
    (c : ℕ) (o : Option (List Bytes)) (rest : XtRequest)
    → ((n : ℕ) → elem n (chains rest) ≡ true → c < n)
    → IsAscending (chains rest)
    → IsAscending (chains (add_request c o rest))
unfolding chains
add_request-IsAscending c none rest l h = h
add_request-IsAscending c (some []) rest l h = h
add_request-IsAscending c (some (tx ∷ txs)) rest l h = (l, h)

elem-add_request :
    (n c : ℕ) (o : Option (List Bytes)) (rest : XtRequest)
    → elem n (chains (add_request c o rest)) ≡ true
    → (nat_beq c n || elem n (chains rest)) ≡ true
unfolding chains
elem-add_request n c none rest h = ground arith
elem-add_request n c (some []) rest h = ground arith
elem-add_request n c (some (tx ∷ txs)) rest h = h

elem-requests :
    (n : ℕ) (m : Map ℕ (List Bytes)) (ids : List ℕ)
    → elem n (chains (requests m ids)) ≡ true
    → elem n ids ≡ true
unfolding requests chains
elem-requests n m [] h = absurd (ground arith)
elem-requests n m (c ∷ ids) h =
    ground (arith, elem-add_request n c (Map.lookup c m) (requests m ids) h, elem-requests n m ids)

-- The chains of a request are among those asked for, in the same order.
requests-IsAscending :
    (m : Map ℕ (List Bytes)) (ids : List ℕ)
    → IsAscending ids
    → IsAscending (chains (requests m ids))
unfolding requests chains
requests-IsAscending m [] h = tt
requests-IsAscending m (c ∷ ids) h =
    add_request-IsAscending c (Map.lookup c m) (requests m ids)
      (λ n e. h.0 n (elem-requests n m ids e)) (requests-IsAscending m ids h.1)

-- Two orders of iteration of the same map of transactions give the same request, and so the same
-- fingerprint; and a request names its chains in strictly ascending order, each of them once.
pub xt_request_fingerprint_same :
    (env : Env) (m n : Map ℕ (List Bytes))
    → Map.HasDistinctKeys m
    → Map.HasDistinctKeys n
    → IsSameMap m n
    → (build_xt_request m ≡ build_xt_request n)
      × (xt_request_fingerprint env (build_xt_request m)
          ≡ xt_request_fingerprint env (build_xt_request n))
      × IsAscending (chains (build_xt_request m))
unfolding build_xt_request
xt_request_fingerprint_same env m n d e s = (
  build_xt_request_same m n d e s,
  ap (xt_request_fingerprint env) (build_xt_request_same m n d e s),
  requests-IsAscending m (sort (Map.keys m)) (sort-IsAscending (Map.keys m) (keys-HasNoRepeat m d)),
)
