-- ===== src/Simulation/Trace/Preorder.antt =====
-- `parse_call_trace` of crates/mailbox/src/parser.rs against the recursive walk that its stack stands
-- for.
use sidecar.Prelude.{
  ℕ, zero, suc, ◌+◌, ◌≤◌, ◌<◌, ◌≡◌, refl, sym, ap, ◌∙◌, Option, none, some, List, [], ◌∷◌, ◌++◌,
  Bytes, bytes_beq, arith, leb, if◌then◌else◌, Bool-cases, inl, inr,
}
use mathlib.Core.List.{reverse, append_assoc, append-nil, reverse-cons}
use sidecar.Prelude.Text.{codes}
use sidecar.Simulation.Json.{
  Value, Items, Fields, null, bool, num, str, arr, obj, nil, cons, end, field, elements, get_field,
  as_array, size, size_items, size_fields,
}
use sidecar.Simulation.Trace.{
  MailboxAbi, SimulationState, max_trace_depth, visit_node, array_of, push_all, push_array,
  push_calls, walk_stack, parse_call_trace,
}

-- The calls of a frame in preorder, each with its own calls behind it; below the greatest depth the
-- calls are left out.
mutual
  pub preorder : Value → ℕ → List Value
  preorder (obj fields) depth =
      obj fields ∷ (if leb max_trace_depth depth then [] else preorder_calls fields (suc depth))
  preorder node depth = node ∷ []

  pub preorder_calls : Fields → ℕ → List Value
  preorder_calls end depth = []
  preorder_calls (field key v fields) depth =
      if bytes_beq key (codes "calls") then preorder_array v depth else preorder_calls fields depth

  pub preorder_array : Value → ℕ → List Value
  preorder_array (arr vs) depth = preorder_items vs depth
  preorder_array _ depth = []

  pub preorder_items : Items → ℕ → List Value
  preorder_items nil depth = []
  preorder_items (cons v vs) depth = preorder v depth ++ preorder_items vs depth

-- The walk of what stands on the stack, top first.
abbrev preorder_stack : List (Value × ℕ) → List Value
preorder_stack [] = []
preorder_stack ((node, depth) ∷ stack) = preorder node depth ++ preorder_stack stack

abbrev size_stack : List (Value × ℕ) → ℕ
size_stack [] = 0
size_stack ((node, depth) ∷ stack) = size node + size_stack stack

abbrev at_depth : ℕ → List Value → List (Value × ℕ)
at_depth depth [] = []
at_depth depth (v ∷ vs) = (v, depth) ∷ at_depth depth vs

push_all-append :
    (xs ys : List Value) (depth : ℕ) (stack : List (Value × ℕ))
    → push_all (xs ++ ys) depth stack ≡ push_all ys depth (push_all xs depth stack)
push_all-append [] ys depth stack = refl
push_all-append (x ∷ xs) ys depth stack = push_all-append xs ys depth ((x, depth) ∷ stack)

push_all-reverse :
    (vs : List Value) (depth : ℕ) (stack : List (Value × ℕ))
    → push_all (reverse vs) depth stack ≡ at_depth depth vs ++ stack
push_all-reverse [] depth stack = refl
push_all-reverse (v ∷ vs) depth stack =
    ap (λ xs. push_all xs depth stack) (reverse-cons v vs)
    ∙ push_all-append (reverse vs) (v ∷ []) depth stack
    ∙ ap (λ rest. (v, depth) ∷ rest) (push_all-reverse vs depth stack)

abbrev or_none : Option (List Value) → List Value
or_none none = []
or_none (some vs) = vs

push_array_lem :
    (calls : Option (List Value)) (depth : ℕ) (stack : List (Value × ℕ))
    → push_array calls depth stack ≡ at_depth (suc depth) (or_none calls) ++ stack
push_array_lem none depth stack = refl
push_array_lem (some vs) depth stack = push_all-reverse vs (suc depth) stack

preorder_stack-append :
    (xs ys : List (Value × ℕ)) → preorder_stack (xs ++ ys) ≡ preorder_stack xs ++ preorder_stack ys
preorder_stack-append [] ys = refl
preorder_stack-append ((v, depth) ∷ xs) ys =
    ap (λ rest. preorder v depth ++ rest) (preorder_stack-append xs ys)
    ∙ sym (append_assoc (preorder v depth) (preorder_stack xs) (preorder_stack ys))

preorder_items_lem :
    (vs : Items) (depth : ℕ)
    → preorder_stack (at_depth depth (elements vs)) ≡ preorder_items vs depth
unfolding preorder
preorder_items_lem nil depth = refl
preorder_items_lem (cons v vs) depth =
    ap (λ rest. preorder v depth ++ rest) (preorder_items_lem vs depth)

preorder_array_lem :
    (v : Value) (depth : ℕ)
    → preorder_stack (at_depth depth (or_none (as_array v))) ≡ preorder_array v depth
unfolding preorder
preorder_array_lem (arr vs) depth = preorder_items_lem vs depth
preorder_array_lem null depth = refl
preorder_array_lem (bool b) depth = refl
preorder_array_lem (num n) depth = refl
preorder_array_lem (str s) depth = refl
preorder_array_lem (obj fields) depth = refl

preorder_calls_lem :
    (fields : Fields) (depth : ℕ)
    → preorder_stack (at_depth depth (or_none (array_of (get_field (codes "calls") fields))))
      ≡ preorder_calls fields depth
unfolding preorder
preorder_calls_lem end depth = refl
preorder_calls_lem (field key v fields) depth = elim (Bool-cases (bytes_beq key (codes "calls"))) [
  | inl e ↦ rw e (preorder_array_lem v depth)
  | inr e ↦ rw e (preorder_calls_lem fields depth)
]

-- What a frame and the stack below it stand for is the frame, and what then stands on the stack.
push_calls_lem :
    (node : Value) (depth : ℕ) (stack : List (Value × ℕ))
    → preorder node depth ++ preorder_stack stack
      ≡ node ∷ preorder_stack (push_calls node depth stack)
unfolding preorder
push_calls_lem (obj fields) depth stack = elim (Bool-cases (leb max_trace_depth depth)) [
  | inl e ↦ rw e refl
  | inr e ↦ rw e (ap (λ rest. obj fields ∷ rest) (sym pushed))
]
  where
    calls : Option (List Value)
    calls = array_of (get_field (codes "calls") fields)

    pushed :
        preorder_stack (push_array calls depth stack)
        ≡ preorder_calls fields (suc depth) ++ preorder_stack stack
    pushed =
        ap preorder_stack (push_array_lem calls depth stack)
        ∙ preorder_stack-append (at_depth (suc depth) (or_none calls)) stack
        ∙ ap (λ xs. xs ++ preorder_stack stack) (preorder_calls_lem fields (suc depth))
push_calls_lem null depth stack = ground arith
push_calls_lem (bool b) depth stack = ground arith
push_calls_lem (num n) depth stack = ground arith
push_calls_lem (str s) depth stack = ground arith
push_calls_lem (arr vs) depth stack = ground arith

size_stack-append :
    (xs ys : List (Value × ℕ)) → size_stack (xs ++ ys) ≡ size_stack xs + size_stack ys
size_stack-append [] ys = omega arith
size_stack-append ((v, depth) ∷ xs) ys = omega (arith, size_stack-append xs ys)

size_items_lem :
    (vs : Items) (depth : ℕ) → size_stack (at_depth depth (elements vs)) ≡ size_items vs
unfolding size
size_items_lem nil depth = refl
size_items_lem (cons v vs) depth = omega (arith, size_items_lem vs depth)

size_array-le :
    (v : Value) (depth : ℕ) → size_stack (at_depth depth (or_none (as_array v))) ≤ size v
unfolding size
size_array-le (arr vs) depth = omega (arith, size_items_lem vs depth)
size_array-le null depth = omega arith
size_array-le (bool b) depth = omega arith
size_array-le (num n) depth = omega arith
size_array-le (str s) depth = omega arith
size_array-le (obj fields) depth = omega arith

size_calls-le :
    (fields : Fields) (depth : ℕ)
    → size_stack (at_depth depth (or_none (array_of (get_field (codes "calls") fields))))
      ≤ size_fields fields
unfolding size
size_calls-le end depth = omega arith
size_calls-le (field key v fields) depth = elim (Bool-cases (bytes_beq key (codes "calls"))) [
  | inl e ↦ rw e (omega (arith, size_array-le v depth))
  | inr e ↦ rw e (omega (arith, size_calls-le fields depth))
]

-- Each round takes away one value at least.
size-push_calls :
    (node : Value) (depth : ℕ) (stack : List (Value × ℕ))
    → size_stack (push_calls node depth stack) < size node + size_stack stack
unfolding size
size-push_calls (obj fields) depth stack = elim (Bool-cases (leb max_trace_depth depth)) [
  | inl e ↦ rw e (omega arith)
  | inr e ↦ rw e (
      omega (
        arith,
        ap size_stack (push_array_lem calls depth stack),
        size_stack-append (at_depth (suc depth) (or_none calls)) stack,
        size_calls-le fields (suc depth),
      ))
]
  where
    calls : Option (List Value)
    calls = array_of (get_field (codes "calls") fields)
size-push_calls null depth stack = ground arith
size-push_calls (bool b) depth stack = ground arith
size-push_calls (num n) depth stack = ground arith
size-push_calls (str s) depth stack = ground arith
size-push_calls (arr vs) depth stack = ground arith

module _ (abi : MailboxAbi) (mailbox : Bytes) (local_chain_id : ℕ) where
  pub visit_all : List Value → SimulationState → SimulationState
  visit_all [] state = state
  visit_all (node ∷ nodes) state =
      visit_all nodes (visit_node abi mailbox local_chain_id node state)

  walk_stack-preorder :
      (fuel : ℕ) (stack : List (Value × ℕ)) (state : SimulationState)
      → size_stack stack ≤ fuel
      → walk_stack abi mailbox local_chain_id fuel stack state
        ≡ some (visit_all (preorder_stack stack) state)
  unfolding walk_stack visit_all
  walk_stack-preorder zero [] state h = refl
  walk_stack-preorder (suc fuel) [] state h = refl
  walk_stack-preorder zero ((node, depth) ∷ stack) state h =
      absurd (omega (arith, size-push_calls node depth stack))
  walk_stack-preorder (suc fuel) ((node, depth) ∷ stack) state h =
      walk_stack-preorder fuel (push_calls node depth stack)
        (visit_node abi mailbox local_chain_id node state)
        (omega (arith, size-push_calls node depth stack))
      ∙ ap (λ nodes. some (visit_all nodes state)) (sym (push_calls_lem node depth stack))

  -- The parser ends on every trace, and has then visited the frames in preorder, those of a depth up
  -- to 1024: its stack carries out the recursive walk.
  pub parse_call_trace-preorder :
      (trace : Value)
      → parse_call_trace abi mailbox local_chain_id trace
        ≡ some (visit_all (preorder trace 0) (record { reads = []; writes = [] }))
  unfolding parse_call_trace preorder
  parse_call_trace-preorder trace =
      walk_stack-preorder (size trace) ((trace, 0) ∷ []) (record { reads = []; writes = [] })
        (omega arith)
      ∙ ap (λ nodes. some (visit_all nodes (record { reads = []; writes = [] })))
          (append-nil (preorder trace 0))
