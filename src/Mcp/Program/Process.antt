-- ===== src/Mcp/Program/Process.antt =====
-- internal/mcp/program.go: one request of a program, under the broker's lock.
use microagency.Base.{not, none, some, leb, Text, text_eq, ◌+◌, if◌then◌else◌}
use microagency.Base.Map
use microagency.Mcp.Program.{
  Host, Operation, Request, Response, Replayed, Scene, Broker, valid_program_request_id,
  budget_state, error_response, record_decision, exhaust, find_tools_locked, call_tool_locked,
  budget_exhausted, canceled, invalid_request, replay_mismatch, exhausted, was_canceled, replay,
  mismatch, find_tools, call_tool, other, running, deadline_exceeded, stopped,
}

module _ (h : Host) where
  unfoldable pub perform : Scene → Request → Operation → Broker → Broker × Response
  unfolding find_tools_locked call_tool_locked error_response
  perform scene req find_tools b = find_tools_locked h scene req b
  perform scene req call_tool b = call_tool_locked h scene req b
  perform scene req other b = (b, error_response b req.id invalid_request)

  -- The response is kept for an exact replay.
  unfoldable pub remember : Text → Text → Broker × Response → Broker × Response
  remember id digest (b, response) = (
    record b { seen = Map.put id (record { digest = digest; response = response }) b.seen },
    response,
  )

  -- The end of `processLocked`: one more operation, with the state of the budget after it.
  unfoldable pub operate : Scene → Request → Text → Broker → Broker × Response
  unfolding perform remember budget_state
  operate scene req digest b =
      let (after, response) = perform scene req req.operation (record b { ops = b.ops + 1 }) in
      remember req.id digest (after, record response { id = req.id; budget = budget_state after })

  -- `processLocked` on an identifier that was not used.
  unfoldable pub process_fresh : Scene → Request → Text → Broker → Broker × Response
  unfolding operate remember exhaust error_response
  process_fresh scene req digest b = elim scene.run [
    | deadline_exceeded ↦
        remember req.id digest
          (record b { status = budget_exhausted }, error_response b req.id exhausted)
    | stopped ↦
        remember req.id digest
          (record b { status = canceled }, error_response b req.id was_canceled)
    | running ↦ elim scene.request [
      | running ↦
          if leb b.max_ops b.ops
          then remember req.id digest (exhaust req.id b, error_response b req.id exhausted)
          else operate scene req digest b
      | _ ↦
          remember req.id digest
            (record b { status = canceled }, error_response b req.id was_canceled)
    ]
  ]

  unfoldable pub process_seen : Text → Text → Replayed → Broker → Broker × Response
  unfolding record_decision error_response budget_state
  process_seen id digest old b =
      if text_eq old.digest digest
      then (record_decision replay id 0 b, record old.response { budget = budget_state b })
      else (record_decision mismatch id 1 b, error_response b id replay_mismatch)

  unfoldable pub process_locked : Scene → Request → Text → Broker → Broker × Response
  unfolding process_fresh process_seen error_response valid_program_request_id
  process_locked scene req body b =
      if not (valid_program_request_id req.id)
      then (b, error_response b req.id invalid_request)
      else elim (Map.get req.id b.seen) [
        | some old ↦ process_seen req.id (h.sha256 body) old b
        | none ↦ process_fresh scene req (h.sha256 body) b
      ]
