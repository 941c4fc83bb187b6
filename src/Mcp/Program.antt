-- ===== src/Mcp/Program.antt =====
-- internal/mcp/program.go: the broker that serves one governed program. `Host` holds SHA-256 and
-- package json; what the gateway answers to the one call that a request can make is an argument
-- (`Found` for find_tools, `Answer` for call_tool). `effects` lists the broker's calls into the
-- gateway and its recorded decisions, newest first. Messages are left out.
pub mod Process
pub mod Serve
pub mod Budgets
pub mod Given
pub mod Once
pub mod Replay
use microagency.Base.{
  ℕ, Bool, true, false, Option, none, some, List, [], ltb, leb, length, all, Text, codes, text_eq,
  has_byte, ◌+◌, ◌-◌, ◌&&◌, ◌||◌, ◌∷◌, ◌==◌, if◌then◌else◌,
}
use microagency.Base.Map
use microagency.Base.Map.{Map}

pub data Status : Type 0 where
  completed budget_exhausted canceled : Status

pub data Code : Type 0 where
  invalid_request replay_mismatch exhausted was_canceled discovery_error internal : Code
  unauthorized_tool result_unavailable : Code
  tool_error : Text → Code

pub data Event : Type 0 where
  replay mismatch out_of_budget : Event

pub data Effect : Type 0 where
  recorded : Event → Text → ℕ → Effect
  searched : Text → Text → ℕ → Effect
  called : Text → Text → Text → Effect

-- What a response delivers: the raw JSON of a result, a string, or decoded JSON.
pub data Value : Type 0 where
  raw text decoded : Text → Value

pub record Host : Type 0 where
  pub sha256 : Text → Text
  pub json_valid : Text → Bool
  pub marshal : Value → Option Text
  pub ref_of : Text → Option Text

pub data Operation : Type 0 where
  find_tools call_tool other : Operation

-- `limit` is 0 where the source's is 0 or negative.
pub record Request : Type 0 where
  pub id : Text
  pub operation : Operation
  pub query : Text
  pub limit : ℕ
  pub name : Text
  pub arguments : Text

pub record BudgetState : Type 0 where
  pub calls_remaining : ℕ
  pub bytes_remaining : ℕ

pub record Response : Type 0 where
  pub id : Text
  pub ok : Bool
  pub result : Option Value
  pub error : Option Code
  pub budget : BudgetState

pub record Replayed : Type 0 where
  pub digest : Text
  pub response : Response

-- The state of a context.
pub data Context : Type 0 where
  running deadline_exceeded stopped : Context

-- The reference store of the gateway, if there is one: a payload and its owner.
abbrev pub RefStore : Type 0
RefStore = Option (Text → Option (Text × Text))

pub data Found : Type 0 where
  find_failed : Found
  tools : Text → Found

pub data Answer : Type 0 where
  no_such_tool : Answer
  failed : Text → Answer
  returned : Text → Answer

-- What surrounds a request: the two contexts, the gateway's answers and its store.
pub record Scene : Type 0 where
  pub run : Context
  pub request : Context
  pub found : Found
  pub answer : Answer
  pub store : RefStore

pub record Broker : Type 0 where
  pub principal : Text
  pub max_calls : ℕ
  pub max_bytes : ℕ
  pub max_ops : ℕ
  pub max_requests : ℕ
  pub calls : ℕ
  pub searches : ℕ
  pub bytes : ℕ
  pub ops : ℕ
  pub requests : ℕ
  pub request_budget_logged : Bool
  pub status : Status
  pub seen : Map Replayed
  pub effects : List Effect

abbrev pub max_program_searches : ℕ
max_program_searches = 16

-- `newProgramBroker` over a configuration that passed its validation.
unfoldable pub new_program_broker : Text → ℕ → ℕ → Broker
new_program_broker principal max_calls max_bytes = record {
  principal = principal;
  max_calls = max_calls;
  max_bytes = max_bytes;
  max_ops = max_calls + max_program_searches + 16;
  max_requests = max_calls + max_program_searches + 32;
  calls = 0;
  searches = 0;
  bytes = 0;
  ops = 0;
  requests = 0;
  request_budget_logged = false;
  status = completed;
  seen = [];
  effects = [];
}

unfoldable pub valid_program_request_id_byte : ℕ → Bool
valid_program_request_id_byte r =
    (leb b'a' r && leb r b'z')
    || (leb b'A' r && leb r b'Z')
    || (leb b'0' r && leb r b'9')
    || has_byte r (codes "._:-")

unfoldable pub valid_program_request_id : Text → Bool
unfolding valid_program_request_id_byte
valid_program_request_id id =
    if length id == 0 || ltb 64 (length id) then false else all valid_program_request_id_byte id

unfoldable pub budget_state : Broker → BudgetState
budget_state b = record {
  calls_remaining = b.max_calls - b.calls;
  bytes_remaining = b.max_bytes - b.bytes;
}

unfoldable pub error_response : Broker → Text → Code → Response
unfolding budget_state
error_response b id code = record {
  id = id;
  ok = false;
  result = none;
  error = some code;
  budget = budget_state b;
}

unfoldable pub record_decision : Event → Text → ℕ → Broker → Broker
record_decision event id exit_code b = record b {
  effects = recorded event id exit_code ∷ b.effects;
}

-- The broker after a budget ran out.
unfoldable pub exhaust : Text → Broker → Broker
unfolding record_decision
exhaust id b = record_decision out_of_budget id 1 (record b { status = budget_exhausted })

module _ (h : Host) where
  unfoldable pub deliver : Text → Value → Broker → Broker × Response
  unfolding exhaust error_response budget_state
  deliver id result b = elim (h.marshal result) [
    | none ↦ (b, error_response b id internal)
    | some encoded ↦
        if ltb b.max_bytes (b.bytes + length encoded)
        then (exhaust id b, error_response b id exhausted)
        else let paid = record b { bytes = b.bytes + length encoded } in
          (
            paid,
            record {
              id = id;
              ok = true;
              result = some result;
              error = none;
              budget = budget_state paid;
            },
          )
  ]

  unfoldable pub find_tools_locked : Scene → Request → Broker → Broker × Response
  unfolding deliver exhaust error_response
  find_tools_locked scene req b =
      if leb max_program_searches b.searches
      then (exhaust req.id b, error_response b req.id exhausted)
      else let limit = if req.limit == 0 then 10 else req.limit in
        let asked = record b {
          searches = b.searches + 1;
          effects = searched req.id req.query limit ∷ b.effects;
        } in
        elim scene.found [
          | find_failed ↦ (asked, error_response asked req.id discovery_error)
          | tools payload ↦
              if h.json_valid payload
              then deliver req.id (decoded payload) asked
              else (asked, error_response asked req.id internal)
        ]

  -- The stored payload of a handle that belongs to the program's principal.
  unfoldable pub owned_payload : Text → Option (Text × Text) → Option Text
  owned_payload principal none = none
  owned_payload principal (some (payload, owner)) =
      if text_eq owner principal then some payload else none

  unfoldable pub materialize_result : RefStore → Text → Text → Option Text
  unfolding owned_payload
  materialize_result store principal payload = elim (h.ref_of payload) [
    | none ↦ some payload
    | some handle ↦ elim store [
      | none ↦ none
      | some lookup ↦ owned_payload principal (lookup handle)
    ]
  ]

  -- What follows the gateway's answer to a call.
  unfoldable pub settle : RefStore → Text → Broker → Answer → Broker × Response
  unfolding deliver materialize_result error_response
  settle store id b no_such_tool = (b, error_response b id unauthorized_tool)
  settle store id b (failed kind) = (b, error_response b id (tool_error kind))
  settle store id b (returned payload) = elim (materialize_result store b.principal payload) [
    | none ↦ (b, error_response b id result_unavailable)
    | some content ↦ deliver id (if h.json_valid content then raw content else text content) b
  ]

  unfoldable pub call_tool_locked : Scene → Request → Broker → Broker × Response
  unfolding settle exhaust error_response
  call_tool_locked scene req b =
      if leb b.max_calls b.calls
      then (exhaust req.id b, error_response b req.id exhausted)
      else let counted = record b { calls = b.calls + 1 } in
        let arguments = if length req.arguments == 0 then codes "{}" else req.arguments in
        if h.json_valid arguments
        then settle scene.store req.id
            (record counted { effects = called req.id req.name arguments ∷ b.effects }) scene.answer
        else (counted, error_response counted req.id invalid_request)
