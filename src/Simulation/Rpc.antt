-- ===== src/Simulation/Rpc.antt =====
-- crates/simulation/src/rpc.rs: `RpcSimulator`. The node's answers, the decoding of a transaction and
-- the decoders of Trace are parameters.
pub mod Success
use sidecar.Prelude.{
  ℕ, zero, suc, Bool, true, false, not, ◌&&◌, Option, none, some, List, [], ◌∷◌, ◌++◌, Bytes,
  nat_eq, length, is_empty, is_none, if◌then◌else◌,
}
use sidecar.Prelude.Map
use sidecar.Prelude.Map.{Map}
use sidecar.Prelude.Text.{codes, decimal}
use sidecar.Prelude.Result.{Result, ok, err, ◌>>=◌}
use sidecar.Mailbox.Types.{CrossRollupDependency, CrossRollupMessage}
use sidecar.Mailbox.Wire.{WordCodec}
use sidecar.Mailbox.Overrides.{StateOverride, merge_overrides_owned}
use sidecar.Mailbox.Overrides.Build.{build_mailbox_state_overrides}
use sidecar.Simulation.Types.{SimulationResult, SimulationError, rpc, other}
use sidecar.Simulation.Json.{Value, get, as_str, text_of}
use sidecar.Simulation.Trace.{
  MailboxAbi, MailboxCall, SimulationState, or_empty_text, parse_call_trace,
}
use sidecar.Simulation.Diff.{PreStateFrame, optional_trace_state_overrides}

-- A signed transaction as its library decodes it; `signer` is the outcome of `recover_signer`.
pub record TxEnvelope : Type 0 where
  pub signer : Result Bytes Bytes
  pub gas_limit : ℕ
  pub to : Option Bytes
  pub input : Bytes
  pub value : ℕ

pub record TransactionRequest : Type 0 where
  pub from : Bytes
  pub gas_limit : ℕ
  pub to : Option Bytes
  pub input : Option Bytes
  pub value : Option ℕ

pub data Tracer : Type 0 where
  call_tracer prestate_tracer : Tracer

-- One `debug_traceCall` against the pending block.
pub record TraceCall : Type 0 where
  pub url : Bytes
  pub tx_args : TransactionRequest
  pub state_overrides : Option StateOverride
  pub tracer : Tracer

-- The code and the message are texts here, as is the JSON that may come with them.
pub record JsonRpcError : Type 0 where
  pub code : Bytes
  pub message : Bytes
  pub payload : Option Bytes

pub record JsonRpcResponse (T : Type 0) : Type 0 where
  pub result : Option T
  pub error : Option JsonRpcError

-- The node, with an error of the request or of its answer's form as a text.
pub record Node : Type 0 where
  pub call_trace : TraceCall → Result Bytes (JsonRpcResponse Value)
  pub prestate_trace : TraceCall → Result Bytes (JsonRpcResponse PreStateFrame)

pub record RpcSimulator : Type 0 where
  pub chains : Map ℕ Bytes
  pub mailbox_address : Option Bytes
  pub abi : MailboxAbi
  pub codec : WordCodec
  pub keccak256 : Bytes → Bytes
  pub decode_envelope : Bytes → Result Bytes TxEnvelope
  pub node : Node

abbrev pub data_suffix : Option Bytes → Bytes
data_suffix none = []
data_suffix (some payload) = codes " (" ++ (payload ++ codes ")")

abbrev pub into_message : JsonRpcError → Bytes
into_message e = codes "code " ++ (e.code ++ (codes ": " ++ (e.message ++ data_suffix e.payload)))

abbrev pub url_or_error : ℕ → Option Bytes → Result SimulationError Bytes
url_or_error chain_id none = err (other (codes "no RPC configured for chain " ++ decimal chain_id))
url_or_error chain_id (some url) = ok url

abbrev pub rpc_url : RpcSimulator → ℕ → Result SimulationError Bytes
rpc_url sim chain_id = url_or_error chain_id (Map.lookup chain_id sim.chains)

-- `map_err(|e| …)`
abbrev pub with_error {ℓ} :
    {A : Type ℓ} → (Bytes → SimulationError) → Result Bytes A → Result SimulationError A
with_error wrap (ok a) = ok a
with_error wrap (err e) = err (wrap e)

abbrev pub nonempty_input : Bytes → Option Bytes
nonempty_input [] = none
nonempty_input (b ∷ bytes) = some (b ∷ bytes)

abbrev pub nonzero : ℕ → Option ℕ
nonzero zero = none
nonzero (suc n) = some (suc n)

abbrev pub request_of : TxEnvelope → Bytes → TransactionRequest
request_of signed from = record {
  from = from;
  gas_limit = signed.gas_limit;
  to = signed.to;
  input = nonempty_input signed.input;
  value = nonzero signed.value;
}

pub decode_tx : RpcSimulator → Bytes → Result SimulationError TransactionRequest
decode_tx sim tx = do
  signed ← with_error (λ e. other (codes "failed to decode tx: " ++ e)) (sim.decode_envelope tx)
  from ← with_error (λ e. other (codes "failed to recover signer: " ++ e)) signed.signer
  ok (request_of signed from)

-- `with_state_overrides` only if there are some.
abbrev pub overrides_argument : StateOverride → Option StateOverride
overrides_argument [] = none
overrides_argument (o ∷ overrides) = some (o ∷ overrides)

abbrev pub result_or_missing {ℓ} : {T : Type ℓ} → Option T → Result SimulationError T
result_or_missing none = err (rpc (codes "missing debug_traceCall result"))
result_or_missing (some result) = ok result

-- An error in the answer comes before its result.
abbrev pub answered : {T : Type 0} → Option JsonRpcError → Option T → Result SimulationError T
answered (some e) result = err (rpc (into_message e))
answered none result = result_or_missing result

abbrev pub trace_call :
    {T : Type 0}
    → RpcSimulator
    → (TraceCall → Result Bytes (JsonRpcResponse T))
    → Tracer
    → ℕ
    → TransactionRequest
    → StateOverride
    → Result SimulationError T
trace_call sim post tracer chain_id tx_args overrides = do
  url ← rpc_url sim chain_id
  response ← with_error rpc (
      post (record {
        url = url;
        tx_args = tx_args;
        state_overrides = overrides_argument overrides;
        tracer = tracer;
      }))
  answered response.error response.result

-- `filter(|call| call.reverted).map(…)`
abbrev pub unmet : List MailboxCall → List CrossRollupDependency
unmet [] = []
unmet (call ∷ calls) =
    let rest = unmet calls in
    if call.reverted
    then record {
      source_chain_id = call.source_chain;
      dest_chain_id = call.dest_chain;
      sender = call.sender;
      receiver = call.receiver;
      label = call.label;
      payload = none;
      session_id = call.session_id;
    }
      ∷ rest
    else rest

abbrev pub outbound : List MailboxCall → List CrossRollupMessage
outbound [] = []
outbound (call ∷ calls) =
    record {
      source_chain_id = call.source_chain;
      dest_chain_id = call.dest_chain;
      sender = call.sender;
      receiver = call.receiver;
      label = call.label;
      payload = call.payload;
      session_id = call.session_id;
    }
    ∷ outbound calls

-- The parser always has a result.
abbrev pub mailbox_data :
    Option SimulationState → List CrossRollupDependency × List CrossRollupMessage
mailbox_data none = ([], [])
mailbox_data (some parsed) = (unmet parsed.reads, outbound parsed.writes)

abbrev pub extract_at :
    Option Bytes → RpcSimulator → Value → ℕ → List CrossRollupDependency × List CrossRollupMessage
extract_at none sim trace chain_id = ([], [])
extract_at (some mailbox) sim trace chain_id =
    mailbox_data (parse_call_trace sim.abi mailbox chain_id trace)

unfoldable pub extract_mailbox_data :
    RpcSimulator → Value → ℕ → List CrossRollupDependency × List CrossRollupMessage
extract_mailbox_data sim trace chain_id = extract_at sim.mailbox_address sim trace chain_id

-- `trace.get("error").map(…).unwrap_or(true)`
abbrev pub top_level_ok : Value → Bool
top_level_ok trace = is_empty (or_empty_text (text_of (get (codes "error") trace)))

abbrev pub error_of : Bool → ℕ → Option Bytes → Option Bytes
error_of success count found =
    if not success && is_none found
    then some (
        decimal count
        ++ codes " mailbox readMessage call(s) reverted inside an otherwise successful transaction")
    else found

unfoldable pub result_from_traces :
    RpcSimulator → ℕ → Value → Result SimulationError PreStateFrame → SimulationResult
unfolding extract_mailbox_data
result_from_traces sim chain_id trace prestate =
    let (dependencies, messages) = extract_mailbox_data sim trace chain_id in
    let success = top_level_ok trace && is_empty dependencies in
    record {
      success = success;
      error = error_of success (length dependencies) (text_of (get (codes "error") trace));
      state_overrides = optional_trace_state_overrides prestate;
      dependencies = dependencies;
      outbound_messages = messages;
    }

-- `tokio::join!` of the two traces; only a failure of the first is one of the simulation.
pub trace_both :
    RpcSimulator → ℕ → TransactionRequest → StateOverride → Result SimulationError SimulationResult
unfolding result_from_traces
trace_both sim chain_id tx_args overrides = do
  trace ← trace_call sim sim.node.call_trace call_tracer chain_id tx_args overrides
  ok (
      result_from_traces sim chain_id trace
        (trace_call sim sim.node.prestate_trace prestate_tracer chain_id tx_args overrides))

pub simulate : RpcSimulator → ℕ → Bytes → StateOverride → Result SimulationError SimulationResult
unfolding decode_tx trace_both
simulate sim chain_id tx overrides = do
  tx_args ← decode_tx sim tx
  trace_both sim chain_id tx_args overrides

abbrev pub mailbox_overrides :
    Option Bytes → RpcSimulator → ℕ → List CrossRollupDependency → Option StateOverride
mailbox_overrides none sim chain_id deps = none
mailbox_overrides (some mailbox) sim chain_id deps =
    if is_empty deps
    then none
    else build_mailbox_state_overrides sim.codec sim.keccak256 chain_id mailbox deps

abbrev pub simulate_over :
    Option StateOverride
    → RpcSimulator
    → ℕ
    → Bytes
    → StateOverride
    → Result SimulationError SimulationResult
unfolding simulate
simulate_over none sim chain_id tx overrides = simulate sim chain_id tx overrides
simulate_over (some mailbox) sim chain_id tx overrides = do
  tx_args ← decode_tx sim tx
  trace_both sim chain_id tx_args (merge_overrides_owned overrides mailbox)

pub simulate_with_mailbox :
    RpcSimulator
    → ℕ
    → Bytes
    → StateOverride
    → List CrossRollupDependency
    → Result SimulationError SimulationResult
unfolding simulate_over
simulate_with_mailbox sim chain_id tx overrides deps =
    simulate_over (mailbox_overrides sim.mailbox_address sim chain_id deps) sim chain_id tx
      overrides
