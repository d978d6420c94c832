-- ===== src/Simulation/Tests.antt =====
-- A simulated transaction whose trace reads and writes the mailbox, and instances of the theorems on
-- it. Selectors and calls are one byte long here, behind eight hex digits.
use sidecar.Prelude.{◌≡◌, ◌↔◌, refl, true, false, Option, none, some, [], ◌∷◌, Bytes}
use sidecar.Prelude.Text.{codes}
use sidecar.Prelude.Result.{err}
use sidecar.Simulation.Types.{timeout}
use sidecar.Simulation.Json.{Value, str, arr, obj, nil, cons, end, field}
use sidecar.Simulation.Trace.{
  MailboxAbi, MailboxCallType, MessageHeader, visit_node, parse_call_trace,
}
use sidecar.Simulation.Trace.Preorder.{preorder, visit_all, parse_call_trace-preorder}
use sidecar.Simulation.Diff.{AccountState, DiffMode, state_overrides_from_diff}
use sidecar.Simulation.Diff.Effect.{Carries, look, state_overrides_from_diff-Carries}
use sidecar.Simulation.Rpc.{RpcSimulator, result_from_traces}
use sidecar.Simulation.Rpc.Success.{Succeeds, result_from_traces-success_iff}

abbrev header : MessageHeader
header = record {
  chain_src = 2;
  chain_dest = 1;
  sender = 8 ∷ [];
  receiver = 9 ∷ [];
  session_id = 4;
  label = codes "SEND";
}

-- Any text but the empty one is an address.
abbrev parse_address : Bytes → Option Bytes
parse_address [] = none
parse_address (b ∷ bytes) = some (b ∷ bytes)

abbrev abi : MailboxAbi
abi = record {
  hex_decode = λ text. some text;
  parse_address = parse_address;
  write_selector = codes "11111111";
  read_selector = codes "22222222";
  decode_write_call = λ bytes. some (record { header = header; payload = bytes });
  decode_read_call = λ bytes. some header;
}

abbrev mailbox : Bytes
mailbox = codes "m"

abbrev inner_call : Value
inner_call = obj (
    field (codes "from") (str (codes "a")) (
      field (codes "to") (str mailbox) (
        field (codes "input") (str (codes "0x22222222"))
          (field (codes "error") (str (codes "reverted")) end))))

-- The entry point swallows the failure of the call that it makes.
abbrev swallowing : Value
swallowing = obj (
    field (codes "from") (str (codes "a")) (
      field (codes "to") (str (codes "b")) (field (codes "calls") (arr (cons inner_call nil)) end)))

reads_inner :
    parse_call_trace abi mailbox 1 swallowing
    ≡ some (record {
      reads =
          record {
            call_type = MailboxCallType.read;
            source_chain = 2;
            dest_chain = 1;
            sender = 8 ∷ [];
            receiver = 9 ∷ [];
            label = codes "SEND";
            payload = [];
            session_id = 4;
            reverted = true;
          }
          ∷ [];
      writes = [];
    })
unfolding parse_call_trace visit_node
reads_inner = refl

parse_call_trace-preorder_example :
    parse_call_trace abi mailbox 1 swallowing
    ≡ some (visit_all abi mailbox 1 (preorder swallowing 0) (record { reads = []; writes = [] }))
parse_call_trace-preorder_example = parse_call_trace-preorder abi mailbox 1 swallowing

abbrev simulator : RpcSimulator
simulator = record {
  chains = (1, codes "http://node") ∷ [];
  mailbox_address = some mailbox;
  abi = abi;
  codec = record { to_be_bytes = λ _. []; from_be_slice = λ _. 0 };
  keccak256 = λ bytes. bytes;
  decode_envelope = λ _. err [];
  node = record { call_trace = λ _. err []; prestate_trace = λ _. err [] };
}

-- The failure under a call that succeeded makes the simulation fail.
swallowed_fails : (result_from_traces simulator 1 swallowing (err timeout)).success ≡ false
unfolding result_from_traces parse_call_trace visit_node
swallowed_fails = refl

result_from_traces-success_iff_example :
    ((result_from_traces simulator 1 swallowing (err timeout)).success ≡ true)
    ↔ Succeeds simulator mailbox 1 swallowing
result_from_traces-success_iff_example =
    result_from_traces-success_iff simulator mailbox 1 swallowing (err timeout) refl

abbrev holding : Bytes → AccountState
holding value = record {
  balance = some 5;
  nonce = none;
  code = none;
  storage = (1 ∷ [], value) ∷ [];
}

-- The account 1 clears the slot 1, the account 2 is destroyed.
abbrev difference : DiffMode
difference = record {
  pre = (1 ∷ [], holding (3 ∷ [])) ∷ (2 ∷ [], holding (4 ∷ [])) ∷ [];
  post = (1 ∷ [], record (holding []) { storage = [] }) ∷ [];
}

state_overrides_from_diff-Carries_example :
    Carries
      (some (holding (3 ∷ [])))
      (some (record (holding []) { storage = [] }))
      (look (1 ∷ []) (state_overrides_from_diff difference))
state_overrides_from_diff-Carries_example =
    state_overrides_from_diff-Carries difference (1 ∷ []) (refl, tt)
