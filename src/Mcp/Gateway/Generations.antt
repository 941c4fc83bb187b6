-- ===== src/Mcp/Gateway/Generations.antt =====
-- What the registry of internal/mcp/gateway.go keeps of a connection while other operations run, and the
-- commit of a sign-in of internal/mcp/userconnections.go after such a run.
use microagency.Base.{
  ℕ, suc, refl, inr, Bool, true, false, not, Option, none, some, List, [], arith, is_some, any,
  Text, if_cases, ◌+◌, ◌%◌, ◌<◌, ◌≡◌, ◌⊎◌, ◌∙◌, ◌∷◌, ◌==◌, if◌then◌else◌,
}
use microagency.Base.Map
use microagency.Mcp.Packages.{Packages}
use microagency.Mcp.Gateway.{
  Conn, Listing, Upstream, Registry, Mediation, RegistryError, generation_changed, unknown_upstream,
}
use microagency.Mcp.Gateway.Operations.{amend, fail_if}
use microagency.Mcp.Gateway.SelfService.{
  Flow, Template, is_current, is_own, reauthorize, commit_self_service_oauth,
}
use microagency.Mcp.Gateway.Runs.{Op, apply, run, revokes, removes, revocations}
use microagency.Mcp.Gateway.Tracked.{M, Changed, step-Tracked}

-- The record after a run with so many revocations.
abbrev pub IsAfter : ℕ → Upstream → Upstream → Type 0
IsAfter k u v =
    (v.auth_generation ≡ (u.auth_generation + k) % M)
    × (v.self_service ≡ u.self_service)
    × (u.self_service ≡ true → v.owner ≡ u.owner)
    × (v.private_destination ≡ u.private_destination)

module _ (p : Packages) (m : Mediation) (n : Text) where
  count :
      (b : Bool) (k g h i : ℕ)
      → h ≡ (if b then (g + 1) % M else g)
      → i ≡ (h + k) % M
      → i ≡ (g + (if b then suc k else k)) % M
  count true k g h i e f = omega arith
  count false k g h i e f = omega arith

  step-IsAfter :
      (b : Bool) (k : ℕ) (u v w : Upstream)
      → Changed b u v
      → IsAfter k v w
      → IsAfter (if b then suc k else k) u w
  step-IsAfter b k u v w (g, s, o, d) (g', s', o', d') = (
    count b k u.auth_generation v.auth_generation w.auth_generation g g',
    s' ∙ s,
    λ t. o' (s ∙ t) ∙ o t,
    d' ∙ d,
  )

  bounded :
      (b : Bool) (u v : Upstream) → Changed b u v → u.auth_generation < M → v.auth_generation < M
  bounded true u v (g, _, _, _) l = omega arith
  bounded false u v (g, _, _, _) l = omega arith

  -- A run in which a connection is not removed keeps its record: the authorization generation has
  -- counted its revocations modulo 2^64, the kind and the private destination are as before, and a
  -- self-service connection still has its owner.
  pub run-IsAfter :
      (ops : List Op) (reg : Registry) (u : Upstream)
      → Map.get n reg.conns ≡ some u
      → u.auth_generation < M
      → any (removes n) ops ≡ false
      → ((v : Upstream) × (Map.get n (run p m ops reg).conns ≡ some v)
          × IsAfter (revocations n ops) u v)
  unfolding run revocations any
  run-IsAfter [] reg u h l r = (u, h, (omega arith, refl, λ _. refl, refl))
  run-IsAfter (op ∷ ops) reg u h l r =
      let (v, e, c) = step-Tracked (revokes n op) n u reg h p m op refl (ground arith) in
      let (w, f, a) =
        run-IsAfter ops (apply p m op reg) v e (bounded (revokes n op) u v c l) (ground arith) in
      (w, f, step-IsAfter (revokes n op) (revocations n ops) u v w c a)

  stale : (k g h : ℕ) → g < M → 0 < k → k < M → h ≡ (g + k) % M → (h == g) ≡ false
  stale k g h l a b e = ground arith

  amend_fail :
      (k : Text) (missing : RegistryError) (f : Upstream → Upstream ⊎ RegistryError)
      (reg : Registry) (v : Upstream) (x : RegistryError)
      → Map.get k reg.conns ≡ some v
      → f v ≡ inr x
      → amend k missing f reg ≡ (reg, some x)
  amend_fail k missing f reg v x e h = ground arith

  fail_second :
      (b c : Bool) (rest : Upstream ⊎ RegistryError)
      → c ≡ false
      → (e : RegistryError) × (fail_if
            (not b)
            unknown_upstream
            (fail_if (not c) generation_changed rest)
          ≡ inr e)
  unfolding fail_if
  fail_second true true rest h = absurd (cc)
  fail_second true false rest h = (generation_changed, refl)
  fail_second false c rest h = (unknown_upstream, refl)

  reauthorize_stale :
      (flow : Flow) (conn : Conn) (listing : Listing) (v : Upstream)
      → (v.auth_generation == flow.auth_generation) ≡ false
      → (e : RegistryError) × (reauthorize flow conn listing v ≡ inr e)
  unfolding reauthorize
  reauthorize_stale flow conn listing v h =
      fail_second (is_own flow v) (v.auth_generation == flow.auth_generation) _ h

  -- Nothing changes, and there is an error.
  abbrev pub Refuses : Registry → Registry × Option RegistryError → Type 0
  Refuses reg (after, e) = (after ≡ reg) × (is_some e ≡ true)

  commit_stale :
      (flow : Flow) (template : Option Template) (conn : Conn) (answer : Option Listing)
      (reg : Registry) (v : Upstream)
      → flow.reauth ≡ true
      → flow.name ≡ n
      → Map.get n reg.conns ≡ some v
      → (v.auth_generation == flow.auth_generation) ≡ false
      → Refuses reg (commit_self_service_oauth flow template conn answer reg)
  unfolding commit_self_service_oauth
  commit_stale flow template conn none reg v r k e h = (refl, refl)
  commit_stale flow template conn (some listing) reg v r k e h =
      if_cases (Refuses reg) (not (is_current flow template)) _ _ (λ _. (refl, refl))
        λ _.
          let (x, f) = reauthorize_stale flow conn listing v h in
          let there : Map.get flow.name reg.conns ≡ some v = rw k e in
          if_cases (Refuses reg) flow.reauth _ _
            (λ _.
              rw
                (amend_fail flow.name unknown_upstream (reauthorize flow conn listing) reg v x there
                  f)
                (refl, refl))
            (λ no. absurd (cc))

  -- A sign-in that a principal began to renew a connection from a template, before the connection was
  -- revoked, cannot commit: after a run that revokes the connection, not 2^64 times and more, and does
  -- not remove it, the commit returns an error and changes nothing, whatever the upstream answers and
  -- whatever became of the template.
  pub commit_self_service_stale :
      (ops : List Op) (reg : Registry) (u : Upstream) (flow : Flow) (template : Option Template)
      (conn : Conn) (answer : Option Listing)
      → Map.get n reg.conns ≡ some u
      → u.auth_generation < M
      → flow.name ≡ n
      → flow.reauth ≡ true
      → flow.auth_generation ≡ u.auth_generation
      → any (removes n) ops ≡ false
      → 0 < revocations n ops
      → revocations n ops < M
      → let after = run p m ops reg in
        ((commit_self_service_oauth flow template conn answer after).0 ≡ after)
        × (is_some (commit_self_service_oauth flow template conn answer after).1 ≡ true)
  commit_self_service_stale ops reg u flow template conn answer h l k re g r a b =
      let (v, e, c) = run-IsAfter ops reg u h l r in
      commit_stale flow template conn answer (run p m ops reg) v re k e
        (rw g (stale (revocations n ops) u.auth_generation v.auth_generation l a b c.0))
