-- ===== src/Examples/Programs.antt =====
-- A governed program that calls one tool, replays the call, and searches.
use microagency.Base.{
  refl, true, none, some, List, [], arith, all, Text, codes, text_eq, has_byte, ◌≤◌, ◌≡◌, ◌∷◌,
  if◌then◌else◌,
}
use microagency.Base.Map
use microagency.Mcp.Program.{
  Host, Broker, Request, Response, Scene, raw, find_tools, call_tool, find_failed, returned,
  running, new_program_broker, valid_program_request_id, error_response, budget_state,
  replay_mismatch,
}
use microagency.Mcp.Program.Process.{process_locked}
use microagency.Mcp.Program.Serve.{Incoming, decoded_request, elsewhere, reply, serve_http}
use microagency.Mcp.Program.Given.{given, run-given}
use microagency.Mcp.Program.Budgets.{run, calls_made, searches_made}
use microagency.Mcp.Program.Once.{uses, run-uses}
use microagency.Mcp.Program.Replay.{replay-same}

abbrev host : Host
host = record {
  sha256 = λ t. t;
  json_valid = λ t. true;
  marshal = λ v. elim v [ raw t ↦ some t | _ ↦ some [] ];
  ref_of = λ t. none;
}

abbrev scene : Scene
scene = record {
  run = running;
  request = running;
  found = find_failed;
  answer = returned (codes "[1,2]");
  store = none;
}

abbrev call : Request
call = record {
  id = codes "r-1";
  operation = call_tool;
  query = [];
  limit = 0;
  name = codes "gh__list";
  arguments = [];
}

abbrev search : Request
search = record call { id = codes "r-2"; operation = find_tools }

abbrev traffic : List (Scene × Incoming)
traffic =
    (scene, decoded_request call (codes "a"))
    ∷ (scene, decoded_request call (codes "a"))
    ∷ (scene, elsewhere)
    ∷ (scene, decoded_request search (codes "b"))
    ∷ []

abbrev fresh : Broker
fresh = new_program_broker (codes "idp#ann") 1 10

run-given_example :
    let b = run host (new_program_broker (codes "idp#ann") 1 10) traffic in
    (calls_made b.effects ≤ 1)
    × (given host b.seen ≤ 10)
    × (searches_made b.effects ≤ 16)
    × (b.ops ≤ 33)
    × (b.requests ≤ 49)
run-given_example = run-given host (codes "idp#ann") 1 10 traffic

run-uses_example :
    uses (codes "r-1") (run host (new_program_broker (codes "idp#ann") 1 10) traffic).effects ≤ 1
run-uses_example = run-uses host (codes "r-1") (codes "idp#ann") 1 10 traffic

abbrev first : Response
first = record {
  id = codes "r-1";
  ok = true;
  result = some (raw (codes "[1,2]"));
  error = none;
  budget = record { calls_remaining = 0; bytes_remaining = 5 };
}

first-answer :
    (valid_program_request_id call.id ≡ true)
    × (Map.get call.id fresh.seen ≡ none)
    × ((serve_http host scene (decoded_request call (codes "a")) fresh).1 ≡ reply 200 first)
    × ((run host (serve_http host scene (decoded_request call (codes "a")) fresh).0 []).requests
        ≡ 1)
    × ((run host (serve_http host scene (decoded_request call (codes "a")) fresh).0 []).max_requests
        ≡ 49)
    × (fresh.requests ≡ 0)
    × (fresh.max_requests ≡ 49)
unfolding run serve_http process_locked all has_byte Map.get new_program_broker
first-answer = (refl, refl, refl, refl, refl, refl, refl)

replay-same_example :
    let t = run host (serve_http host scene (decoded_request call (codes "a")) fresh).0 [] in
    let again = serve_http host scene (decoded_request call (codes "a")) t in
    (again.1
      ≡ reply 200 (
          if text_eq (codes "a") (codes "a")
          then record first { budget = budget_state t }
          else error_response t call.id replay_mismatch))
    × ((id : Text) → uses id again.0.effects ≡ uses id t.effects)
    × (again.0.calls ≡ t.calls)
    × (again.0.bytes ≡ t.bytes)
replay-same_example =
    replay-same host scene scene call call (codes "a") (codes "a") fresh first [] first-answer.0
      first-answer.1 (omega (arith, first-answer)) first-answer.2 refl (omega (arith, first-answer))
