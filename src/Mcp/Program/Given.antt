-- ===== src/Mcp/Program/Given.antt =====
-- internal/mcp/program.go: the bytes of the results that a program was given.
use microagency.Base.{
  ℕ, refl, ap, Option, none, some, List, [], arith, length, Text, codes, option_cases, ◌+◌, ◌≤◌,
  ◌≡◌, ◌∙◌, ◌∷◌, ◌==◌, if◌then◌else◌,
}
use microagency.Base.Map
use microagency.Base.Map.{Map}
use microagency.Mcp.Program.{
  Host, Broker, Response, Request, Replayed, Scene, Operation, find_tools, call_tool, other, Value,
  raw, text, materialize_result, Answer, RefStore, no_such_tool, failed, returned,
  new_program_broker, called, record_decision, exhaust, error_response, deliver, find_tools_locked,
  call_tool_locked, settle, budget_state, exhausted, was_canceled,
}
use microagency.Mcp.Program.Process.{
  perform, remember, operate, process_fresh, process_seen, process_locked,
}
use microagency.Mcp.Program.Serve.{
  Incoming, elsewhere, over_cap, undecodable, trailing, decoded_request, serve_counted,
  refuse_request, serve_http,
}
use microagency.Mcp.Program.Budgets.{calls_made, searches_made, run, run-Within}

module _ (h : Host) where
  -- The bytes of the result of a response, as JSON.
  unfoldable pub result_size : Option Value → ℕ
  result_size none = 0
  result_size (some v) = elim (h.marshal v) [ none ↦ 0 | some encoded ↦ length encoded ]

  -- The bytes of the results of all identifiers that were answered, each counted once.
  unfoldable pub given : Map Replayed → ℕ
  unfolding result_size
  given [] = 0
  given ((id, r) ∷ seen) = result_size r.response.result + given seen

  given-put_new :
      (id : Text) (r : Replayed) (seen : Map Replayed)
      → Map.get id seen ≡ none
      → given (Map.put id r seen) ≡ given seen + result_size r.response.result
  unfolding given Map.get Map.put
  given-put_new id r [] e = omega arith
  given-put_new id r ((j, q) ∷ seen) e = ground (arith, given-put_new id r seen)

  -- The response is paid for, and nothing is remembered yet.
  abbrev Pays : Broker → Broker × Response → Type 0
  Pays b (t, r) = (t.seen ≡ b.seen) × (t.bytes ≡ b.bytes + result_size r.result)

  deliver-Pays : (id : Text) (v : Value) (b : Broker) → Pays b (deliver h id v b)
  unfolding deliver exhaust error_response result_size
  deliver-Pays id v b = ground arith

  find_tools-Pays :
      (scene : Scene) (req : Request) (b : Broker) → Pays b (find_tools_locked h scene req b)
  unfolding find_tools_locked deliver exhaust error_response result_size
  find_tools-Pays scene req b = ground arith

  settle-Pays :
      (store : RefStore) (id : Text) (b : Broker) (a : Answer) → Pays b (settle h store id b a)
  unfolding settle error_response result_size
  settle-Pays store id b no_such_tool = (refl, omega arith)
  settle-Pays store id b (failed kind) = (refl, omega arith)
  settle-Pays store id b (returned payload) =
      option_cases (Pays b) (materialize_result h store b.principal payload) _ _
        (λ _. (refl, omega arith))
        λ content _. deliver-Pays id (if h.json_valid content then raw content else text content) b

  call_tool-Pays :
      (scene : Scene) (req : Request) (b : Broker) → Pays b (call_tool_locked h scene req b)
  unfolding call_tool_locked exhaust error_response result_size
  call_tool-Pays scene req b =
      let arguments = if length req.arguments == 0 then codes "{}" else req.arguments in
      ground (
        arith,
        settle-Pays scene.store req.id
            (record b {
              calls = b.calls + 1;
              effects = called req.id req.name arguments ∷ b.effects;
            })
            scene.answer,
      )

  perform-Pays :
      (scene : Scene) (req : Request) (op : Operation) (b : Broker)
      → Pays b (perform h scene req op b)
  unfolding perform error_response result_size
  perform-Pays scene req find_tools b = find_tools-Pays scene req b
  perform-Pays scene req call_tool b = call_tool-Pays scene req b
  perform-Pays scene req other b = (refl, omega arith)

  -- What was given is what was charged.
  abbrev Paid : Broker → Type 0
  Paid b = given b.seen ≡ b.bytes

  remember-Paid :
      (id digest : Text) (b t : Broker) (r : Response)
      → Map.get id b.seen ≡ none
      → Paid b
      → Pays b (t, r)
      → Paid (remember h id digest (t, r)).0
  unfolding remember
  remember-Paid id digest b t r fresh p (same, paid) =
      ap (λ (m : Map Replayed). given (Map.put id (record { digest = digest; response = r }) m))
        same
      ∙ (given-put_new id (record { digest = digest; response = r }) b.seen fresh
          ∙ omega (arith, p, paid))

  operate-Paid :
      (scene : Scene) (req : Request) (digest : Text) (b : Broker)
      → Map.get req.id b.seen ≡ none
      → Paid b
      → Paid (operate h scene req digest b).0
  unfolding operate
  operate-Paid scene req digest b fresh p =
      let after = perform h scene req req.operation (record b { ops = b.ops + 1 }) in
      remember-Paid req.id digest b after.0
        (record after.1 { id = req.id; budget = budget_state after.0 }) fresh p
        (perform-Pays scene req req.operation (record b { ops = b.ops + 1 }))

  fresh-Paid :
      (scene : Scene) (req : Request) (digest : Text) (b : Broker)
      → Map.get req.id b.seen ≡ none
      → Paid b
      → Paid (process_fresh h scene req digest b).0
  unfolding process_fresh exhaust error_response result_size
  fresh-Paid scene req digest b fresh p = ground (
    arith,
    operate-Paid scene req digest b fresh p,
    given-put_new req.id (record { digest = digest; response = error_response b req.id exhausted })
        b.seen fresh,
    given-put_new req.id
        (record { digest = digest; response = error_response b req.id was_canceled }) b.seen fresh,
  )

  process-Paid :
      (scene : Scene) (req : Request) (body : Text) (b : Broker)
      → Paid b
      → Paid (process_locked h scene req body b).0
  unfolding process_locked process_seen record_decision
  process-Paid scene req body b p = ground (arith, fresh-Paid scene req (h.sha256 body) b)

  counted-Paid :
      (scene : Scene) (incoming : Incoming) (b : Broker)
      → Paid b
      → Paid (serve_counted h scene incoming b).0
  unfolding serve_counted
  counted-Paid scene (decoded_request req body) b p = process-Paid scene req body b p
  counted-Paid scene elsewhere b p = p
  counted-Paid scene over_cap b p = p
  counted-Paid scene undecodable b p = p
  counted-Paid scene (trailing id) b p = p

  serve-Paid :
      (scene : Scene) (incoming : Incoming) (b : Broker)
      → Paid b
      → Paid (serve_http h scene incoming b).0
  unfolding serve_http refuse_request record_decision
  serve-Paid scene incoming b p =
      ground (arith, counted-Paid scene incoming (record b { requests = b.requests + 1 }))

  run-Paid : (b : Broker) (rest : List (Scene × Incoming)) → Paid b → Paid (run h b rest)
  unfolding run
  run-Paid b [] p = p
  run-Paid b ((scene, incoming) ∷ rest) p =
      run-Paid (serve_http h scene incoming b).0 rest (serve-Paid scene incoming b p)

  -- Whatever a new program sends, and whatever the gateway answers, the program's tool calls stay at
  -- or below its call cap; the JSON of the results that it was given, each identifier counted once
  -- and so without the repetitions of a replay, has no more bytes than its byte cap; its searches stay
  -- at or below sixteen, its operations at or below its calls and searches and sixteen more, and the
  -- requests that were taken up at or below its calls and searches and thirty-two more.
  pub run-given :
      (principal : Text) (max_calls max_bytes : ℕ) (rest : List (Scene × Incoming))
      → let b = run h (new_program_broker principal max_calls max_bytes) rest in
        (calls_made b.effects ≤ max_calls)
        × (given b.seen ≤ max_bytes)
        × (searches_made b.effects ≤ 16)
        × (b.ops ≤ max_calls + 32)
        × (b.requests ≤ max_calls + 48)
  unfolding new_program_broker given
  run-given principal max_calls max_bytes rest =
      let new = new_program_broker principal max_calls max_bytes in
      omega (arith, run-Within h principal max_calls max_bytes rest, run-Paid new rest refl)
