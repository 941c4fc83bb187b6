-- ===== src/Mcp/Program/Replay.antt =====
-- A request identifier gets one response ever after.
use microagency.Base.{
  refl, ap, true, none, some, List, [], arith, Text, text_eq, text_eq_refl, text_eq_iff, ◌+◌, ◌<◌,
  ◌≡◌, ◌∙◌, ◌∷◌, if◌then◌else◌,
}
use microagency.Base.Map
use microagency.Base.Map.{Map, get-put}
use microagency.Mcp.Program.{
  Host, Broker, Response, Request, Scene, Replayed, exhausted, was_canceled, replay_mismatch,
  valid_program_request_id, budget_state, error_response, record_decision, exhaust,
}
use microagency.Mcp.Program.Process.{
  perform, remember, operate, process_fresh, process_seen, process_locked,
}
use microagency.Mcp.Program.Serve.{
  Incoming, reply, elsewhere, over_cap, undecodable, trailing, decoded_request, serve_counted,
  refuse_request, serve_http,
}
use microagency.Mcp.Program.Budgets.{run}
use microagency.Mcp.Program.Once.{uses, perform-Touches}

-- The identifier is remembered with this digest and this response.
abbrev Remembers : Text → Replayed → Broker → Type 0
Remembers id old b = Map.get id b.seen ≡ some old

module _ (h : Host) (id : Text) (old : Replayed) where
  operate-Remembers :
      (scene : Scene) (req : Request) (digest : Text) (b : Broker)
      → Map.get req.id b.seen ≡ none
      → Remembers id old b
      → Remembers id old (operate h scene req digest b).0
  unfolding operate remember
  operate-Remembers scene req digest b fresh r =
      let counted = record b { ops = b.ops + 1 } in
      let after = perform h scene req req.operation counted in
      ground (
        arith,
        perform-Touches h id scene req req.operation counted,
        text_eq_iff req.id id,
        get-put req.id id
            (record {
              digest = digest;
              response = record after.1 { id = req.id; budget = budget_state after.0 };
            })
            b.seen,
      )

  fresh-Remembers :
      (scene : Scene) (req : Request) (digest : Text) (b : Broker)
      → Map.get req.id b.seen ≡ none
      → Remembers id old b
      → Remembers id old (process_fresh h scene req digest b).0
  unfolding process_fresh exhaust remember
  fresh-Remembers scene req digest b fresh r = ground (
    arith,
    text_eq_iff req.id id,
    operate-Remembers scene req digest b fresh r,
    get-put req.id id (record { digest = digest; response = error_response b req.id exhausted })
        b.seen,
    get-put req.id id (record { digest = digest; response = error_response b req.id was_canceled })
        b.seen,
  )

  process-Remembers :
      (scene : Scene) (req : Request) (body : Text) (b : Broker)
      → Remembers id old b
      → Remembers id old (process_locked h scene req body b).0
  unfolding process_locked process_seen record_decision
  process-Remembers scene req body b r = ground (arith, fresh-Remembers scene req (h.sha256 body) b)

  counted-Remembers :
      (scene : Scene) (incoming : Incoming) (b : Broker)
      → Remembers id old b
      → Remembers id old (serve_counted h scene incoming b).0
  unfolding serve_counted
  counted-Remembers scene (decoded_request req body) b r = process-Remembers scene req body b r
  counted-Remembers scene elsewhere b r = r
  counted-Remembers scene over_cap b r = r
  counted-Remembers scene undecodable b r = r
  counted-Remembers scene (trailing j) b r = r

  run-Remembers :
      (b : Broker) (rest : List (Scene × Incoming))
      → Remembers id old b
      → Remembers id old (run h b rest)
  unfolding run serve_http refuse_request record_decision
  run-Remembers b [] r = r
  run-Remembers b ((scene, incoming) ∷ rest) r =
      run-Remembers (serve_http h scene incoming b).0 rest
        (ground (arith, counted-Remembers scene incoming (record b { requests = b.requests + 1 })))

module _ (h : Host) where
  remember-stored :
      (j digest : Text) (b : Broker) (r : Response)
      → Remembers j (record { digest = digest; response = r }) (remember h j digest (b, r)).0
  unfolding remember
  remember-stored j digest b r =
      rw (get-put j j (record { digest = digest; response = r }) b.seen) (rw (text_eq_refl j) refl)

  operate-stored :
      (scene : Scene) (req : Request) (digest : Text) (b : Broker)
      → let r = operate h scene req digest b in
        Remembers req.id (record { digest = digest; response = r.1 }) r.0
  unfolding operate remember
  operate-stored scene req digest b =
      let after = perform h scene req req.operation (record b { ops = b.ops + 1 }) in
      remember-stored req.id digest after.0
        (record after.1 { id = req.id; budget = budget_state after.0 })

  fresh-stored :
      (scene : Scene) (req : Request) (digest : Text) (b : Broker)
      → Map.get req.id b.seen ≡ none
      → Remembers req.id
          (record { digest = digest; response = (process_fresh h scene req digest b).1 })
          (process_fresh h scene req digest b).0
  unfolding process_fresh operate remember
  fresh-stored scene req digest b = ground (
    arith,
    operate-stored scene req digest b,
    text_eq_refl req.id,
    get-put req.id req.id (record { digest = digest; response = error_response b req.id exhausted })
        b.seen,
    get-put req.id req.id
        (record { digest = digest; response = error_response b req.id was_canceled }) b.seen,
  )

  served-stored :
      (scene : Scene) (req : Request) (body : Text) (b : Broker) (r : Response)
      → valid_program_request_id req.id ≡ true
      → Map.get req.id b.seen ≡ none
      → b.requests < b.max_requests
      → (serve_http h scene (decoded_request req body) b).1 ≡ reply 200 r
      → Remembers req.id
          (record { digest = h.sha256 body; response = r })
          (serve_http h scene (decoded_request req body) b).0
  unfolding serve_http serve_counted process_locked
  served-stored scene req body b r valid fresh room e =
      ground
        (arith, fresh-stored scene req (h.sha256 body) (record b { requests = b.requests + 1 }))

  -- What a remembered request is answered.
  remembered-served :
      (scene : Scene) (req : Request) (body : Text) (t : Broker) (old : Replayed)
      → valid_program_request_id req.id ≡ true
      → Remembers req.id old t
      → t.requests < t.max_requests
      → let again = serve_http h scene (decoded_request req body) t in
        (again.1
          ≡ reply 200 (
              if text_eq old.digest (h.sha256 body)
              then record old.response { budget = budget_state t }
              else error_response t req.id replay_mismatch))
        × ((id : Text) → uses id again.0.effects ≡ uses id t.effects)
        × (again.0.calls ≡ t.calls)
        × (again.0.bytes ≡ t.bytes)
  unfolding serve_http serve_counted process_locked process_seen record_decision error_response
      budget_state uses
  remembered-served scene req body t old valid r room =
      (ground arith, (λ id. ground arith), ground arith, ground arith)

  -- A request with a valid, unused identifier was answered, and any requests followed. If the broker
  -- still takes requests up, a request with the same identifier gets the first answer, with the
  -- budget of now, when its body has the first one's digest, and a mismatch otherwise; in both cases
  -- nothing goes to the gateway, and no call and no byte is charged.
  pub replay-same :
      (scene scene' : Scene) (req req' : Request) (body body' : Text) (b : Broker) (r : Response)
      → (rest : List (Scene × Incoming)) → valid_program_request_id req.id ≡ true
      → Map.get req.id b.seen ≡ none
      → b.requests < b.max_requests
      → (serve_http h scene (decoded_request req body) b).1 ≡ reply 200 r
      → req'.id ≡ req.id
      → let t = run h (serve_http h scene (decoded_request req body) b).0 rest in
        t.requests < t.max_requests
        → let again = serve_http h scene' (decoded_request req' body') t in
          (again.1
            ≡ reply 200 (
                if text_eq (h.sha256 body) (h.sha256 body')
                then record r { budget = budget_state t }
                else error_response t req'.id replay_mismatch))
          × ((id : Text) → uses id again.0.effects ≡ uses id t.effects)
          × (again.0.calls ≡ t.calls)
          × (again.0.bytes ≡ t.bytes)
  replay-same scene scene' req req' body body' b r rest valid fresh room e same room' =
      let old : Replayed = record { digest = h.sha256 body; response = r } in
      let t = run h (serve_http h scene (decoded_request req body) b).0 rest in
      let kept =
        run-Remembers h req.id old _ rest (served-stored scene req body b r valid fresh room e) in
      remembered-served scene' req' body' t old (ap valid_program_request_id same ∙ valid)
        (ap (λ k. Map.get k t.seen) same ∙ kept) room'
