-- ===== src/Mcp/Program/Budgets.antt =====
-- internal/mcp/program.go: the counters of a broker and their caps.
use microagency.Base.{
  ℕ, List, [], arith, length, Text, codes, option_cases, ◌+◌, ◌≤◌, ◌<◌, ◌≡◌, ◌∷◌, ◌==◌,
  if◌then◌else◌,
}
use microagency.Mcp.Program.{
  Host, Broker, Response, Request, Scene, Effect, searched, called, Operation, find_tools,
  call_tool, other, Value, raw, text, materialize_result, Answer, RefStore, no_such_tool, failed,
  returned, new_program_broker, record_decision, exhaust, deliver, find_tools_locked,
  call_tool_locked, settle,
}
use microagency.Mcp.Program.Process.{
  perform, remember, operate, process_fresh, process_seen, process_locked,
}
use microagency.Mcp.Program.Serve.{
  Incoming, elsewhere, over_cap, undecodable, trailing, decoded_request, serve_counted,
  refuse_request, serve_http,
}

-- How often the broker called a tool, and how often it searched.
unfoldable pub calls_made : List Effect → ℕ
calls_made [] = 0
calls_made (called id name arguments ∷ rest) = calls_made rest + 1
calls_made (_ ∷ rest) = calls_made rest

unfoldable pub searches_made : List Effect → ℕ
searches_made [] = 0
searches_made (searched id query limit ∷ rest) = searches_made rest + 1
searches_made (_ ∷ rest) = searches_made rest

-- The budgets of a broker with these caps hold, and account for what it did.
abbrev pub Within : Broker → Type 0
Within b =
    (b.calls ≤ b.max_calls)
    × (b.bytes ≤ b.max_bytes)
    × (b.searches ≤ 16)
    × (b.ops ≤ b.max_ops)
    × (b.requests ≤ b.max_requests)
    × (calls_made b.effects ≤ b.calls)
    × (searches_made b.effects ≤ b.searches)

-- The caps are the same.
abbrev pub SameCaps : Broker → Broker → Type 0
SameCaps b t =
    (t.max_calls ≡ b.max_calls)
    × (t.max_bytes ≡ b.max_bytes)
    × (t.max_ops ≡ b.max_ops)
    × (t.max_requests ≡ b.max_requests)

abbrev Keeps : Broker → Broker → Type 0
Keeps b t = SameCaps b t × (Within b → Within t)

module _ (h : Host) where
  exhaust-Keeps : (id : Text) (b : Broker) → Keeps b (exhaust id b)
  unfolding exhaust calls_made searches_made
  exhaust-Keeps id b = ground arith

  deliver-Keeps : (id : Text) (v : Value) (b : Broker) → Keeps b (deliver h id v b).0
  unfolding deliver
  deliver-Keeps id v b = ground (arith, exhaust-Keeps id b)

  find_tools-Keeps :
      (scene : Scene) (req : Request) (b : Broker) → Keeps b (find_tools_locked h scene req b).0
  unfolding find_tools_locked deliver exhaust calls_made searches_made
  find_tools-Keeps scene req b = ground arith

  settle-Keeps :
      (store : RefStore) (id : Text) (b : Broker) (a : Answer) → Keeps b (settle h store id b a).0
  unfolding settle
  settle-Keeps store id b no_such_tool = ground arith
  settle-Keeps store id b (failed kind) = ground arith
  settle-Keeps store id b (returned payload) =
      option_cases (λ (r : Broker × Response). Keeps b r.0)
        (materialize_result h store b.principal payload) _ _ (λ _. ground arith)
        λ content _. deliver-Keeps id (if h.json_valid content then raw content else text content) b

  call_tool-Keeps :
      (scene : Scene) (req : Request) (b : Broker) → Keeps b (call_tool_locked h scene req b).0
  unfolding call_tool_locked exhaust calls_made searches_made
  call_tool-Keeps scene req b =
      let arguments = if length req.arguments == 0 then codes "{}" else req.arguments in
      ground (
        arith,
        settle-Keeps scene.store req.id
            (record b {
              calls = b.calls + 1;
              effects = called req.id req.name arguments ∷ b.effects;
            })
            scene.answer,
      )

  perform-Keeps :
      (scene : Scene) (req : Request) (op : Operation) (b : Broker)
      → Keeps b (perform h scene req op b).0
  unfolding perform
  perform-Keeps scene req find_tools b = find_tools-Keeps scene req b
  perform-Keeps scene req call_tool b = call_tool-Keeps scene req b
  perform-Keeps scene req other b = ground arith

  operate-Keeps :
      (scene : Scene) (req : Request) (digest : Text) (b : Broker)
      → b.ops < b.max_ops
      → Keeps b (operate h scene req digest b).0
  unfolding operate remember
  operate-Keeps scene req digest b lt =
      ground (arith, perform-Keeps scene req req.operation (record b { ops = b.ops + 1 }))

  fresh-Keeps :
      (scene : Scene) (req : Request) (digest : Text) (b : Broker)
      → Keeps b (process_fresh h scene req digest b).0
  unfolding process_fresh remember
  fresh-Keeps scene req digest b =
      ground (arith, exhaust-Keeps req.id b, operate-Keeps scene req digest b)

  process-Keeps :
      (scene : Scene) (req : Request) (body : Text) (b : Broker)
      → Keeps b (process_locked h scene req body b).0
  unfolding process_locked process_seen record_decision calls_made searches_made
  process-Keeps scene req body b = ground (arith, fresh-Keeps scene req (h.sha256 body) b)

  counted-Keeps :
      (scene : Scene) (incoming : Incoming) (b : Broker)
      → Keeps b (serve_counted h scene incoming b).0
  unfolding serve_counted
  counted-Keeps scene (decoded_request req body) b = process-Keeps scene req body b
  counted-Keeps scene elsewhere b = ground arith
  counted-Keeps scene over_cap b = ground arith
  counted-Keeps scene undecodable b = ground arith
  counted-Keeps scene (trailing id) b = ground arith

  pub serve-Keeps :
      (scene : Scene) (incoming : Incoming) (b : Broker) → Keeps b (serve_http h scene incoming b).0
  unfolding serve_http refuse_request record_decision calls_made searches_made
  serve-Keeps scene incoming b =
      ground (arith, counted-Keeps scene incoming (record b { requests = b.requests + 1 }))

  unfoldable pub run : Broker → List (Scene × Incoming) → Broker
  run b [] = b
  run b ((scene, incoming) ∷ rest) = run (serve_http h scene incoming b).0 rest

  run-Keeps : (b : Broker) (rest : List (Scene × Incoming)) → Keeps b (run b rest)
  unfolding run
  run-Keeps b [] = ground arith
  run-Keeps b ((scene, incoming) ∷ rest) =
      ground (arith, serve-Keeps scene incoming b, run-Keeps (serve_http h scene incoming b).0 rest)

  -- The counters of a new program's broker stay at or below their caps.
  pub run-Within :
      (principal : Text) (max_calls max_bytes : ℕ) (rest : List (Scene × Incoming))
      → let b = run (new_program_broker principal max_calls max_bytes) rest in
        (calls_made b.effects ≤ max_calls)
        × (b.bytes ≤ max_bytes)
        × (searches_made b.effects ≤ 16)
        × (b.ops ≤ max_calls + 32)
        × (b.requests ≤ max_calls + 48)
  unfolding new_program_broker calls_made searches_made
  run-Within principal max_calls max_bytes rest =
      ground (arith, run-Keeps (new_program_broker principal max_calls max_bytes) rest)
