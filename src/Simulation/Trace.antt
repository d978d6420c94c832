-- ===== src/Simulation/Trace.antt =====
-- crates/mailbox/src/parser.rs, with types.rs and the selector of contract.rs: the mailbox calls in
-- the output of a node's call tracer.
pub mod Preorder
use sidecar.Prelude.{
  ℕ, zero, suc, ◌+◌, ◌^◌, Bool, true, false, not, ◌||◌, Option, none, some, List, [], ◌∷◌, ◌++◌,
  Bytes, bytes_beq, length, is_empty, ltb, leb, take, if◌then◌else◌,
}
use mathlib.Core.List.{reverse}
use sidecar.Prelude.Text.{codes}
use sidecar.Simulation.Json.{Value, get, as_str, as_array, text_of, size}

pub data MailboxCallType : Type 0 where
  read write : MailboxCallType

pub record MailboxCall : Type 0 where
  pub call_type : MailboxCallType
  pub source_chain : ℕ
  pub dest_chain : ℕ
  pub sender : Bytes
  pub receiver : Bytes
  pub label : Bytes
  pub payload : Bytes
  pub session_id : ℕ
  pub reverted : Bool

pub record SimulationState : Type 0 where
  pub reads : List MailboxCall
  pub writes : List MailboxCall

-- The structs of the contract, whose decoders are generated by `sol!`.
pub record MessageHeader : Type 0 where
  pub chain_src : ℕ
  pub chain_dest : ℕ
  pub sender : Bytes
  pub receiver : Bytes
  pub session_id : ℕ
  pub label : Bytes

pub record WriteMessage : Type 0 where
  pub header : MessageHeader
  pub payload : Bytes

pub record MailboxAbi : Type 0 where
  pub hex_decode : Bytes → Option Bytes
  pub parse_address : Bytes → Option Bytes
  pub write_selector : Bytes
  pub read_selector : Bytes
  pub decode_write_call : Bytes → Option WriteMessage
  pub decode_read_call : Bytes → Option MessageHeader

abbrev pub max_trace_depth : ℕ
max_trace_depth = 1024

abbrev pub or_empty_text : Option Bytes → Bytes
or_empty_text none = []
or_empty_text (some s) = s

-- `unwrap_or("")` of a field that holds a text.
abbrev pub text_field : Bytes → Value → Bytes
text_field key node = or_empty_text (text_of (get key node))

-- `strip_prefix("0x").unwrap_or(input)`
abbrev pub strip_prefix : Bytes → Bytes
strip_prefix (a ∷ b ∷ rest) = if bytes_beq (a ∷ b ∷ []) (codes "0x") then rest else a ∷ b ∷ rest
strip_prefix rest = rest

-- `trim_start_matches("0x")` takes the prefix off as often as it stands there.
abbrev pub trim_prefixes : Bytes → Bytes
trim_prefixes (a ∷ b ∷ rest) =
    let trimmed = trim_prefixes rest in
    if bytes_beq (a ∷ b ∷ []) (codes "0x") then trimmed else a ∷ b ∷ rest
trim_prefixes rest = rest

abbrev pub first_bytes : ℕ → Bytes → Option Bytes
first_bytes n bytes = if ltb (length bytes) n then none else some (take n bytes)

abbrev pub bind_option {ℓ κ} : {A : Type ℓ} {B : Type κ} → Option A → (A → Option B) → Option B
bind_option none f = none
bind_option (some a) f = f a

-- `u64::try_from` of a `U256`
abbrev pub as_u64 : ℕ → Option ℕ
as_u64 n = if ltb n (2 ^ 64) then some n else none

abbrev pub is_selector : Bytes → Option Bytes → Bool
is_selector expected none = false
is_selector expected (some selector) = bytes_beq selector expected

abbrev pub push_write : Option MailboxCall → SimulationState → SimulationState
push_write none state = state
push_write (some call) state = record state { writes = state.writes ++ call ∷ [] }

abbrev pub push_read : Option MailboxCall → SimulationState → SimulationState
push_read none state = state
push_read (some call) state = record state { reads = state.reads ++ call ∷ [] }

abbrev pub is_reverted : Value → Bool
is_reverted node = not (is_empty (text_field (codes "error") node))

module _ (abi : MailboxAbi) (mailbox : Bytes) (local_chain_id : ℕ) where
  unfoldable pub calldata_selector : Bytes → Option Bytes
  calldata_selector input = bind_option (first_bytes 8 (strip_prefix input)) abi.hex_decode

  unfoldable pub decode_write : Bytes → Bool → Option MailboxCall
  decode_write input reverted = bind_option (abi.hex_decode (trim_prefixes input)) (λ bytes.
      bind_option (abi.decode_write_call bytes) (λ call.
        bind_option (as_u64 call.header.chain_dest) (λ chain. some (record {
          call_type = write;
          source_chain = local_chain_id;
          dest_chain = chain;
          sender = call.header.sender;
          receiver = call.header.receiver;
          label = call.header.label;
          payload = call.payload;
          session_id = call.header.session_id;
          reverted = reverted;
        }))))

  unfoldable pub decode_read : Bytes → Bool → Option MailboxCall
  decode_read input reverted = bind_option (abi.hex_decode (trim_prefixes input)) (λ bytes.
      bind_option (abi.decode_read_call bytes) (λ header.
        bind_option (as_u64 header.chain_src) (λ chain. some (record {
          call_type = read;
          source_chain = chain;
          dest_chain = local_chain_id;
          sender = header.sender;
          receiver = header.receiver;
          label = header.label;
          payload = [];
          session_id = header.session_id;
          reverted = reverted;
        }))))

  -- `if let Ok(caller) = from_str.parse()`: a write is kept only if its caller is an address.
  abbrev pub write_by : Option Bytes → Bytes → Bool → Option MailboxCall
  write_by none input reverted = none
  write_by (some caller) input reverted = decode_write input reverted

  abbrev pub visit_call : Bytes → Bytes → Bool → Option Bytes → SimulationState → SimulationState
  visit_call from input reverted selector state =
      if is_selector abi.write_selector selector
      then push_write (write_by (abi.parse_address from) input reverted) state
      else if is_selector abi.read_selector selector
      then push_read (decode_read input reverted) state
      else state

  abbrev pub visit_to : Option Bytes → Bytes → Bytes → Bool → SimulationState → SimulationState
  visit_to none from input reverted state = state
  visit_to (some to) from input reverted state =
      if not (bytes_beq to mailbox) || ltb (length input) 10
      then state
      else visit_call from input reverted (calldata_selector input) state

  unfoldable pub visit_node : Value → SimulationState → SimulationState
  unfolding calldata_selector decode_write decode_read
  visit_node node state =
      visit_to (abi.parse_address (text_field (codes "to") node)) (text_field (codes "from") node)
        (text_field (codes "input") node) (is_reverted node) state

-- `node.get("calls").and_then(|v| v.as_array())`
abbrev pub array_of : Option Value → Option (List Value)
array_of none = none
array_of (some v) = as_array v

-- The top of the stack is the head of the list.
abbrev pub push_all : List Value → ℕ → List (Value × ℕ) → List (Value × ℕ)
push_all [] depth stack = stack
push_all (child ∷ children) depth stack = push_all children depth ((child, depth) ∷ stack)

abbrev pub push_array : Option (List Value) → ℕ → List (Value × ℕ) → List (Value × ℕ)
push_array none depth stack = stack
push_array (some calls) depth stack = push_all (reverse calls) (suc depth) stack

abbrev pub push_calls : Value → ℕ → List (Value × ℕ) → List (Value × ℕ)
push_calls node depth stack =
    if leb max_trace_depth depth
    then stack
    else push_array (array_of (get (codes "calls") node)) depth stack

module _ (abi : MailboxAbi) (mailbox : Bytes) (local_chain_id : ℕ) where
  -- The `while` loop, on fuel.
  unfoldable pub walk_stack : ℕ → List (Value × ℕ) → SimulationState → Option SimulationState
  walk_stack fuel [] state = some state
  walk_stack zero (_ ∷ _) state = none
  walk_stack (suc fuel) ((node, depth) ∷ stack) state =
      walk_stack fuel (push_calls node depth stack)
        (visit_node abi mailbox local_chain_id node state)

  -- A trace has as many nodes as values at most.
  unfoldable pub parse_call_trace : Value → Option SimulationState
  unfolding walk_stack size
  parse_call_trace trace =
      walk_stack (size trace) ((trace, 0) ∷ []) (record { reads = []; writes = [] })
