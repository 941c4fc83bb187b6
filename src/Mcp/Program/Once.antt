-- ===== src/Mcp/Program/Once.antt =====
-- internal/mcp/program.go: how often a request identifier reaches the gateway.
use microagency.Base.{
  ℕ, refl, none, List, [], arith, length, Text, codes, text_eq, text_eq_iff, option_cases, ◌+◌, ◌≤◌,
  ◌≡◌, ◌∷◌, ◌==◌, if◌then◌else◌,
}
use microagency.Base.Map
use microagency.Base.Map.{Map, get-put}
use microagency.Mcp.Program.{
  Host, Broker, Response, Request, Scene, Effect, recorded, searched, called, Operation, find_tools,
  call_tool, other, Value, raw, text, Answer, RefStore, no_such_tool, failed, returned,
  new_program_broker, exhausted, was_canceled, materialize_result, budget_state, error_response,
  record_decision, exhaust, deliver, find_tools_locked, call_tool_locked, settle,
}
use microagency.Mcp.Program.Process.{
  perform, remember, operate, process_fresh, process_seen, process_locked,
}
use microagency.Mcp.Program.Serve.{
  Incoming, elsewhere, over_cap, undecodable, trailing, decoded_request, serve_counted,
  refuse_request, serve_http,
}
use microagency.Mcp.Program.Budgets.{run}

-- How often the broker went to the gateway for the identifier.
unfoldable pub uses : Text → List Effect → ℕ
uses id [] = 0
uses id (called j name arguments ∷ rest) = let n = uses id rest in if text_eq j id then n + 1 else n
uses id (searched j query limit ∷ rest) = let n = uses id rest in if text_eq j id then n + 1 else n
uses id (recorded event j exit_code ∷ rest) = uses id rest

-- At most once, and then the identifier is remembered.
abbrev Once : Text → Broker → Type 0
Once id b = (uses id b.effects ≤ 1) × (Map.get id b.seen ≡ none → uses id b.effects ≡ 0)

-- The identifiers that are remembered stay, and only the given one is used, once at most.
abbrev pub Touches : Text → Text → Broker → Broker → Type 0
Touches id j b t =
    (t.seen ≡ b.seen)
    × (uses id b.effects ≤ uses id t.effects)
    × (uses id t.effects ≤ uses id b.effects + (if text_eq j id then 1 else 0))

module _ (h : Host) (id : Text) where
  exhaust-uses :
      (j : Text) (b : Broker)
      → (uses id (exhaust j b).effects ≡ uses id b.effects) × ((exhaust j b).seen ≡ b.seen)
  unfolding exhaust uses
  exhaust-uses j b = (refl, refl)

  deliver-uses :
      (j : Text) (v : Value) (b : Broker)
      → (uses id (deliver h j v b).0.effects ≡ uses id b.effects)
        × ((deliver h j v b).0.seen ≡ b.seen)
  unfolding deliver
  deliver-uses j v b = ground (arith, exhaust-uses j b)

  settle-uses :
      (store : RefStore) (j : Text) (b : Broker) (a : Answer)
      → (uses id (settle h store j b a).0.effects ≡ uses id b.effects)
        × ((settle h store j b a).0.seen ≡ b.seen)
  unfolding settle
  settle-uses store j b no_such_tool = (refl, refl)
  settle-uses store j b (failed kind) = (refl, refl)
  settle-uses store j b (returned payload) =
      option_cases
        (λ (r : Broker × Response). (uses id r.0.effects ≡ uses id b.effects) × (r.0.seen ≡ b.seen))
        (materialize_result h store b.principal payload) _ _ (λ _. (refl, refl))
        λ content _. deliver-uses j (if h.json_valid content then raw content else text content) b

  find_tools-Touches :
      (scene : Scene) (req : Request) (b : Broker)
      → Touches id req.id b (find_tools_locked h scene req b).0
  unfolding find_tools_locked deliver exhaust uses
  find_tools-Touches scene req b = ground arith

  call_tool-Touches :
      (scene : Scene) (req : Request) (b : Broker)
      → Touches id req.id b (call_tool_locked h scene req b).0
  unfolding call_tool_locked exhaust uses
  call_tool-Touches scene req b =
      let arguments = if length req.arguments == 0 then codes "{}" else req.arguments in
      ground (
        arith,
        settle-uses scene.store req.id
            (record b {
              calls = b.calls + 1;
              effects = called req.id req.name arguments ∷ b.effects;
            })
            scene.answer,
      )

  pub perform-Touches :
      (scene : Scene) (req : Request) (op : Operation) (b : Broker)
      → Touches id req.id b (perform h scene req op b).0
  unfolding perform
  perform-Touches scene req find_tools b = find_tools-Touches scene req b
  perform-Touches scene req call_tool b = call_tool-Touches scene req b
  perform-Touches scene req other b = ground arith

  -- A fresh identifier is remembered with what it was given, and used once at most.
  operate-Once :
      (scene : Scene) (req : Request) (digest : Text) (b : Broker)
      → Map.get req.id b.seen ≡ none
      → Once id b
      → Once id (operate h scene req digest b).0
  unfolding operate remember
  operate-Once scene req digest b fresh o =
      let counted = record b { ops = b.ops + 1 } in
      let after = perform h scene req req.operation counted in
      ground (
        arith,
        perform-Touches scene req req.operation counted,
        text_eq_iff req.id id,
        get-put req.id id
            (record {
              digest = digest;
              response = record after.1 { id = req.id; budget = budget_state after.0 };
            })
            b.seen,
      )

  -- What else can be remembered for a request.
  remember-Once :
      (j digest : Text) (b t : Broker) (r : Response)
      → t.seen ≡ b.seen
      → uses id t.effects ≡ uses id b.effects
      → Once id b
      → Once id (remember h j digest (t, r)).0
  unfolding remember
  remember-Once j digest b t r same e o =
      ground (arith, get-put j id (record { digest = digest; response = r }) t.seen)

  fresh-Once :
      (scene : Scene) (req : Request) (digest : Text) (b : Broker)
      → Map.get req.id b.seen ≡ none
      → Once id b
      → Once id (process_fresh h scene req digest b).0
  unfolding process_fresh exhaust remember uses
  fresh-Once scene req digest b fresh o = ground (
    arith,
    operate-Once scene req digest b fresh o,
    (λ (r : Response). get-put req.id id (record { digest = digest; response = r }) b.seen)
        (error_response b req.id exhausted),
    (λ (r : Response). get-put req.id id (record { digest = digest; response = r }) b.seen)
        (error_response b req.id was_canceled),
  )

  process-Once :
      (scene : Scene) (req : Request) (body : Text) (b : Broker)
      → Once id b
      → Once id (process_locked h scene req body b).0
  unfolding process_locked process_seen record_decision uses
  process-Once scene req body b o = ground (arith, fresh-Once scene req (h.sha256 body) b)

  counted-Once :
      (scene : Scene) (incoming : Incoming) (b : Broker)
      → Once id b
      → Once id (serve_counted h scene incoming b).0
  unfolding serve_counted
  counted-Once scene (decoded_request req body) b o = process-Once scene req body b o
  counted-Once scene elsewhere b o = o
  counted-Once scene over_cap b o = o
  counted-Once scene undecodable b o = o
  counted-Once scene (trailing j) b o = o

  serve-Once :
      (scene : Scene) (incoming : Incoming) (b : Broker)
      → Once id b
      → Once id (serve_http h scene incoming b).0
  unfolding serve_http refuse_request record_decision uses
  serve-Once scene incoming b o =
      ground (arith, counted-Once scene incoming (record b { requests = b.requests + 1 }))

  run-Once : (b : Broker) (rest : List (Scene × Incoming)) → Once id b → Once id (run h b rest)
  unfolding run
  run-Once b [] o = o
  run-Once b ((scene, incoming) ∷ rest) o =
      run-Once (serve_http h scene incoming b).0 rest (serve-Once scene incoming b o)

  -- Whatever a new program sends, and whatever the gateway answers, the broker goes to the gateway
  -- at most once for each request identifier, for a call or a search.
  pub run-uses :
      (principal : Text) (max_calls max_bytes : ℕ) (rest : List (Scene × Incoming))
      → uses id (run h (new_program_broker principal max_calls max_bytes) rest).effects ≤ 1
  unfolding new_program_broker uses
  run-uses principal max_calls max_bytes rest =
      (run-Once (new_program_broker principal max_calls max_bytes) rest (ground arith)).0
