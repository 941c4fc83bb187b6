-- ===== src/Mcp/Program/Serve.antt =====
-- internal/mcp/program.go: the HTTP handler of the broker and the summary of a finished program.
use microagency.Base.{ℕ, Bool, true, false, [], leb, Text, ◌+◌, if◌then◌else◌}
use microagency.Mcp.Program.{
  Host, Broker, Response, Request, Scene, Context, Status, running, deadline_exceeded, stopped,
  completed, budget_exhausted, canceled, invalid_request, exhausted, out_of_budget, error_response,
  record_decision,
}
use microagency.Mcp.Program.Process.{process_locked}

-- An HTTP request as the handler takes it apart: another method or path, a body over the cap, a
-- body that is not broker JSON, one with more JSON behind it, or a request with its body.
pub data Incoming : Type 0 where
  elsewhere over_cap undecodable : Incoming
  trailing : Text → Incoming
  decoded_request : Request → Text → Incoming

pub data Reply : Type 0 where
  not_found : Reply
  reply : ℕ → Response → Reply

module _ (h : Host) where
  abbrev pub answered : ℕ → Broker × Response → Broker × Reply
  answered status (b, response) = (b, reply status response)

  -- `ServeHTTP` once the request has been counted.
  unfoldable pub serve_counted : Scene → Incoming → Broker → Broker × Reply
  unfolding process_locked error_response
  serve_counted scene elsewhere b = (b, not_found)
  serve_counted scene over_cap b = (b, reply 413 (error_response b [] invalid_request))
  serve_counted scene undecodable b = (b, reply 400 (error_response b [] invalid_request))
  serve_counted scene (trailing id) b = (b, reply 400 (error_response b id invalid_request))
  serve_counted scene (decoded_request req body) b =
      answered 200 (process_locked h scene req body b)

  -- Only the first request over the cap is recorded.
  unfoldable pub refuse_request : Broker → Broker × Reply
  unfolding record_decision error_response
  refuse_request b =
      let spent = record b { status = budget_exhausted } in
      let logged =
        if b.request_budget_logged
        then spent
        else record (record_decision out_of_budget [] 1 spent) { request_budget_logged = true } in
      (logged, reply 429 (error_response logged [] exhausted))

  abbrev pub is_elsewhere : Incoming → Bool
  is_elsewhere elsewhere = true
  is_elsewhere _ = false

  unfoldable pub serve_http : Scene → Incoming → Broker → Broker × Reply
  unfolding serve_counted refuse_request
  serve_http scene incoming b =
      if is_elsewhere incoming
      then (b, not_found)
      else if leb b.max_requests b.requests
      then refuse_request b
      else serve_counted scene incoming (record b { requests = b.requests + 1 })

pub record Stats : Type 0 where
  pub calls : ℕ
  pub bytes : ℕ
  pub status : Status

unfoldable pub stats : Context → Broker → Stats
stats run b = record {
  calls = b.calls;
  bytes = b.bytes;
  status = elim b.status [
    | completed ↦ elim run [
      | running ↦ completed
      | deadline_exceeded ↦ budget_exhausted
      | stopped ↦ canceled
    ]
    | budget_exhausted ↦ budget_exhausted
    | canceled ↦ canceled
  ];
}
