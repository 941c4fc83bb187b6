-- ===== src/Mcp/Gateway/Gates.antt =====
-- internal/mcp/gateway.go: what must hold when `invokeUpstream` hands a call to an upstream.
use microagency.Base.{
  ℕ, refl, ap, inl, inr, Bool, true, false, not, Option, none, some, List, [], is_some, length,
  Text, codes, text_eq, true_of_not, if_cases, option_cases, is_empty, cut_at, ◌≡◌, ◌⊎◌, ◌∙◌, ◌&&◌,
  ◌∷◌, ◌++◌, if◌then◌else◌,
}
use microagency.Base.Map
use microagency.Mcp.Packages.{Packages}
use microagency.Mcp.Json.{Json}
use microagency.Mcp.Grant.{OperationGrant, EvaluatedGrant}
use microagency.Mcp.Grant.Evaluate.{
  Evaluation, denied, granted, grant_digest, evaluate_operation_grant,
}
use microagency.Mcp.Ledger.{Crypto, Outcome}
use microagency.Mcp.Ledger.Authorize.{authorize_decision}
use microagency.Mcp.Gateway.{Tool, Upstream}
use microagency.Mcp.Gateway.Tools.{find_tool}
use microagency.Mcp.Gateway.Visible.{
  matching_grant, is_owned_by_other, indistinguishable_peers, label_distinguishes,
}
use microagency.Mcp.Gateway.Invoke.{
  Context, caller_key, Reply, Crossing, ProxyResult, not_in_program, program_write, read_only_write,
  schema_block, not_enabled, unknown_tool, Answer, State, first_reason, in_program, is_ok, gaps_of,
  may_write, governed_tests, proxy_gate, proxy_call, call_as, deny, authorize_call, judge_call,
  governed_call, ungoverned_call, is_governed, turn_away, authorized_call, enabled_call, live_call,
  call_known, call_named, invoke_upstream,
}

-- The result of a call that stops, or that hands over one call of which a predicate holds.
data Guarded (s : State) (A : Crossing → Type 0) (r : State × Answer) : Type 0 where
  stopped : r.0.crossings ≡ s.crossings → Guarded s A r
  crossed : (x : Crossing) → A x → r.0.crossings ≡ s.crossings ++ x ∷ [] → Guarded s A r

open_chain :
    (a b c d : Bool) (w x y z : ProxyResult)
    → (if not a
        then some w
        else if b
        then some x
        else if c
        then some y
        else if d
        then some z
        else none)
      ≡ none
    → (a ≡ true) × (b ≡ false) × (c ≡ false) × (d ≡ false)
open_chain false b c d w x y z h = absurd (cc)
open_chain true true c d w x y z h = absurd (cc)
open_chain true false true d w x y z h = absurd (cc)
open_chain true false false true w x y z h = absurd (cc)
open_chain true false false false w x y z h = (refl, refl, refl, refl)

weaken :
    {s t : State} {A B : Crossing → Type 0} {r : State × Answer}
    → t.crossings ≡ s.crossings
    → ((x : Crossing) → A x → B x)
    → Guarded t A r
    → Guarded s B r
weaken e f (stopped h) = stopped (h ∙ e)
weaken e f (crossed x a h) = crossed x (f x a) (h ∙ ap (λ (l : List Crossing). l ++ x ∷ []) e)

module _ (p : Packages) (gaps : Tool → Text → Bool) (ctx : Context) (reply : Reply) (now : ℕ)
    (up tool name : Text) (u : Upstream) (args : Text) where
  -- The gates of the proxied call: the program's allowlist and its restriction to reads, the read-only
  -- connection, and the schema of a write.
  abbrev pub IsOpen : Type 0
  IsOpen =
      let writes = may_write p (find_tool u.tools tool) in
      (in_program ctx name ≡ true)
      × ((is_some ctx.program && writes) ≡ false)
      × ((u.read_only && writes) ≡ false)
      × ((writes && gaps_of gaps (find_tool u.tools tool) args) ≡ false)

  -- The call that is handed over.
  abbrev pub IsCall : Option EvaluatedGrant → Crossing → Type 0
  IsCall authority x =
      (x.conn ≡ u.conn) × (x.tool ≡ tool) × (x.args ≡ args) × (x.authority ≡ authority)

  open_gates : proxy_gate p gaps ctx name u tool args ≡ none → IsOpen
  unfolding proxy_gate
  open_gates h = open_chain _ _ _ _ not_in_program program_write read_only_write schema_block h

  proxy-Guarded :
      (authority : Option EvaluatedGrant) (s : State)
      → Guarded s
          (λ x. IsOpen × IsCall authority x)
          (proxy_call p gaps ctx reply now up tool name u args authority s)
  unfolding proxy_call
  proxy-Guarded authority s =
      option_cases (Guarded s (λ x. IsOpen × IsCall authority x))
        (proxy_gate p gaps ctx name u tool args) _ _
        (λ e. crossed _ (open_gates e, (refl, refl, refl, refl)) refl) (λ _ _. stopped refl)

  -- The caller of a delegated connection has an email.
  abbrev pub HasIdentity : Type 0
  HasIdentity = (is_some u.delegation && text_eq ctx.email []) ≡ false

  abbrev pub IsProxied : Option EvaluatedGrant → Crossing → Type 0
  IsProxied authority x = HasIdentity × IsOpen × IsCall authority x

  call_as-Guarded :
      (authority : Option EvaluatedGrant) (s : State)
      → Guarded s
          (IsProxied authority)
          (call_as p gaps ctx reply now up tool name u args authority s)
  unfolding call_as
  call_as-Guarded authority s =
      if_cases (Guarded s (IsProxied authority)) _ _ _ (λ _. stopped refl)
        (λ e. weaken refl (λ x a. (e, a.0, a.1)) (proxy-Guarded authority s))

  module _ (c : Crypto) (decode : Text → Option Json) (marshal : OperationGrant → Text)
      (high_assurance : Bool) (o : Outcome) where
    authorize-Guarded :
        (ev : EvaluatedGrant) (s : State)
        → Guarded s
            (λ x.
              (is_ok (authorize_decision c o ev (length args) now s.ledger).1 ≡ true)
              × IsProxied (some ev) x)
            (authorize_call p gaps ctx reply now c decode marshal high_assurance o up tool name u
              args ev s)
    unfolding authorize_call
    authorize-Guarded ev s =
        if_cases
          (Guarded s (λ x.
            (is_ok (authorize_decision c o ev (length args) now s.ledger).1 ≡ true)
            × IsProxied (some ev) x))
          _ _ _ (λ e. weaken refl (λ x a. (e, a)) (call_as-Guarded (some ev) _)) (λ _. stopped refl)

    -- The tests of a grant, the evaluation of the arguments, and the record that the ledger took.
    abbrev pub IsJudged : State → OperationGrant → Crossing → Type 0
    IsJudged s g x =
        (first_reason (governed_tests p high_assurance ctx name u tool g) ≡ none)
        × ((ev : EvaluatedGrant) × (evaluate_operation_grant p decode marshal g (caller_key ctx)
                ctx.campaign tool args now
              ≡ granted ev)
            × (is_ok (authorize_decision c o ev (length args) now s.ledger).1 ≡ true)
            × IsProxied (some ev) x)

    evaluated-Guarded :
        (digest : Text) (g : OperationGrant) (s : State) (e : Evaluation)
        → evaluate_operation_grant p decode marshal g (caller_key ctx) ctx.campaign tool args now
          ≡ e
        → Guarded s
            (λ x.
              (ev : EvaluatedGrant) × (evaluate_operation_grant p decode marshal g
                  (caller_key ctx)
                  ctx.campaign
                  tool
                  args
                  now
                ≡ granted ev)
              × (is_ok (authorize_decision c o ev (length args) now s.ledger).1 ≡ true)
              × IsProxied (some ev) x)
            (elim e [
              | denied reason ↦
                  deny p gaps ctx reply now c decode marshal high_assurance o up tool g.id digest
                    reason s
              | granted ev ↦
                  authorize_call p gaps ctx reply now c decode marshal high_assurance o up tool name
                    u args ev s
            ])
    unfolding deny
    evaluated-Guarded digest g s (denied reason) h = stopped refl
    evaluated-Guarded digest g s (granted ev) h =
        weaken refl (λ x (a, b). (ev, h, a, b)) (authorize-Guarded ev s)

    judge-Guarded :
        (g : OperationGrant) (s : State)
        → Guarded s (IsJudged s g) (
            judge_call p gaps ctx reply now c decode marshal high_assurance o up tool name u args g
              s)
    unfolding judge_call deny
    judge-Guarded g s =
        option_cases (Guarded s (IsJudged s g))
          (first_reason (governed_tests p high_assurance ctx name u tool g)) _ _
          (λ e. weaken refl (λ x a. (e, a)) (evaluated-Guarded _ g s _ refl)) (λ _ _. stopped refl)

    -- No other connection looks like this one, or its label tells it apart.
    abbrev pub IsDistinct : State → Type 0
    IsDistinct s =
        let peers =
          indistinguishable_peers p high_assurance now u (caller_key ctx) ctx.campaign ctx.email up
            tool s.registry in
        (not (is_empty peers) && not (label_distinguishes p u.label peers)) ≡ false

    ungoverned-Guarded :
        (s : State)
        → Guarded s
            (λ x. IsDistinct s × IsProxied none x)
            (ungoverned_call p gaps ctx reply now c decode marshal high_assurance o up tool name u
              args s)
    unfolding ungoverned_call
    ungoverned-Guarded s =
        if_cases (Guarded s (λ x. IsDistinct s × IsProxied none x)) _ _ _ (λ _. stopped refl)
          (λ e. weaken refl (λ x a. (e, a)) (call_as-Guarded none s))

    -- A connection with grants, or any under high assurance, needs the grant that matches the caller.
    abbrev pub IsAuthorized : State → Crossing → Type 0
    IsAuthorized s x =
        ((is_governed high_assurance u ≡ true)
          × ((g : OperationGrant) × (matching_grant u.grants (caller_key ctx) ctx.campaign tool
                ≡ some g)
              × IsJudged s g x))
        ⊎ ((is_governed high_assurance u ≡ false) × IsDistinct s × IsProxied none x)

    governed-Guarded :
        (m : Option OperationGrant) (s : State)
        → Guarded s
            (λ x. (g : OperationGrant) × (m ≡ some g) × IsJudged s g x)
            (governed_call p gaps ctx reply now c decode marshal high_assurance o up tool name u
              args m s)
    unfolding governed_call deny
    governed-Guarded none s = stopped refl
    governed-Guarded (some g) s = weaken refl (λ x a. (g, refl, a)) (judge-Guarded g s)

    deny-Guarded :
        (A : Crossing → Type 0) (id digest reason : Text) (s : State)
        → Guarded s A
            (deny p gaps ctx reply now c decode marshal high_assurance o up tool id digest reason s)
    unfolding deny
    deny-Guarded A id digest reason s = stopped refl

    plain-Guarded : (A : Crossing → Type 0) (plain : Answer) (s : State) → Guarded s A (s, plain)
    plain-Guarded A plain s = stopped refl

    turned-Guarded :
        (A : Crossing → Type 0) (m : Option OperationGrant) (reason : Text) (plain : Answer)
        (s : State)
        → Guarded s A (
            turn_away p gaps ctx reply now c decode marshal high_assurance o up tool u m reason
              plain s)
    unfolding turn_away
    turned-Guarded A none reason plain s =
        if_cases (Guarded s A) (is_governed high_assurance u) _ _
          (λ _. deny-Guarded A [] [] reason s) (λ _. plain-Guarded A plain s)
    turned-Guarded A (some g) reason plain s =
        if_cases (Guarded s A) (is_governed high_assurance u) _ _
          (λ _. deny-Guarded A g.id (grant_digest p marshal g) reason s)
          (λ _. plain-Guarded A plain s)

    -- What `invokeUpstream` tests of the connection, and then of the call.
    abbrev pub IsCleared : State → Crossing → Type 0
    IsCleared s x =
        (is_owned_by_other u (caller_key ctx) ≡ false)
        × (u.revoked ≡ false)
        × (u.enabled ≡ true)
        × IsAuthorized s x

    abbrev matched : Option OperationGrant
    matched = matching_grant u.grants (caller_key ctx) ctx.campaign tool

    judged_or_distinct :
        (s : State)
        → Guarded s (IsAuthorized s) (
            authorized_call p gaps ctx reply now c decode marshal high_assurance o up tool name u
              args matched s)
    unfolding authorized_call
    judged_or_distinct s =
        if_cases (Guarded s (IsAuthorized s)) _ _ _
          (λ e. weaken refl (λ x a. inl (e, a)) (governed-Guarded _ s))
          (λ e. weaken refl (λ x (a, b). inr (e, a, b)) (ungoverned-Guarded s))

    IsTrusted : State → Crossing → Type 0
    IsTrusted s x = (u.enabled ≡ true) × IsAuthorized s x

    IsAlive : State → Crossing → Type 0
    IsAlive s x = (u.revoked ≡ false) × IsTrusted s x

    enabled-Guarded :
        (s : State)
        → Guarded s (IsTrusted s) (
            enabled_call p gaps ctx reply now c decode marshal high_assurance o up tool name u args
              matched s)
    unfolding enabled_call IsTrusted
    enabled-Guarded s =
        if_cases (Guarded s (IsTrusted s)) _ _ _
          (λ _.
            turned-Guarded (IsTrusted s) matched (codes "connection is not enabled") not_enabled s)
          (λ e. weaken refl (λ x a. (true_of_not u.enabled e, a)) (judged_or_distinct s))

    live-Guarded :
        (s : State)
        → Guarded s (IsAlive s) (
            live_call p gaps ctx reply now c decode marshal high_assurance o up tool name u args
              matched s)
    unfolding live_call IsAlive
    live-Guarded s =
        if_cases (Guarded s (IsAlive s)) _ _ _
          (λ _.
            turned-Guarded (IsAlive s) matched (codes "connection authority is revoked")
              unknown_tool s)
          (λ e. weaken refl (λ x a. (e, a)) (enabled-Guarded s))

    known-Guarded :
        (s : State)
        → Guarded s (IsCleared s) (
            call_known p gaps ctx reply now c decode marshal high_assurance o up tool name u args s)
    unfolding call_known IsAlive IsTrusted
    known-Guarded s =
        if_cases (Guarded s (IsCleared s)) _ _ _
          (λ _.
            turned-Guarded (IsCleared s) matched (codes "caller does not own the connection")
              unknown_tool s)
          (λ e. weaken refl (λ x a. (e, a.0, a.1.0, a.1.1)) (live-Guarded s))

module _ (p : Packages) (gaps : Tool → Text → Bool) (ctx : Context) (reply : Reply) (now : ℕ)
    (c : Crypto) (decode : Text → Option Json) (marshal : OperationGrant → Text)
    (high_assurance : Bool) (o : Outcome) where
  -- The connection and the tool that a name stands for, and what was tested of them.
  abbrev pub IsReached : Text → Text → State → Crossing → Type 0
  IsReached name args s x =
      ((up : Text) × (tool : Text) × (u : Upstream) × (cut_at (codes "__") name ≡ some (up, tool))
        × (Map.get up s.registry.conns ≡ some u)
        × IsCleared p gaps ctx reply now up tool name u args c decode marshal high_assurance o s x)

  IsNamed : Text → Text → Text → Text → State → Option Upstream → Crossing → Type 0
  IsNamed name args up tool s m x =
      ((u : Upstream) × (m ≡ some u)
        × IsCleared p gaps ctx reply now up tool name u args c decode marshal high_assurance o s x)

  call_named-Guarded :
      (name args up tool : Text) (s : State) (m : Option Upstream)
      → Guarded s
          (IsNamed name args up tool s m)
          (call_named p gaps ctx reply now c decode marshal high_assurance o up tool name args m s)
  unfolding call_named deny IsNamed
  call_named-Guarded name args up tool s none =
      if_cases (Guarded s (IsNamed name args up tool s none)) high_assurance
        (deny p gaps ctx reply now c decode marshal high_assurance o up tool [] []
          (codes "connection or operation is not granted") s)
        (s, unknown_tool) (λ _. stopped refl) (λ _. stopped refl)
  call_named-Guarded name args up tool s (some u) =
      weaken refl (λ x a. (u, refl, a))
        (known-Guarded p gaps ctx reply now up tool name u args c decode marshal high_assurance o s)

  invoke-Guarded :
      (name args : Text) (s : State)
      → Guarded s
          (IsReached name args s)
          (invoke_upstream p gaps ctx reply now c decode marshal high_assurance o name args s)
  unfolding invoke_upstream IsNamed
  invoke-Guarded name args s =
      option_cases (Guarded s (IsReached name args s)) (cut_at (codes "__") name) _ _
        (λ _. stopped refl)
        (λ (up, tool) e.
          weaken refl (λ x (u, f, a). (up, tool, u, e, f, a))
            (call_named-Guarded name args up tool s _))

  -- A call through the gateway leaves the list of handed over calls as it is, or it adds one call, for
  -- the tool and with the arguments of the request, to a connection that the name stands for, that no
  -- other principal owns, that is not revoked and is enabled. Then either the connection has no grants, it
  -- is not high assurance, and no other connection looks like it; or a grant matches the caller, passes
  -- all its tests and evaluates to the authority of the call, and the ledger has authorized it. In both
  -- cases a delegated connection has an identity for the caller, a program's allowlist has the tool, and
  -- neither a program nor a read-only connection writes, nor does a write go out that fails its schema.
  pub invoke-IsReached :
      (name args : Text) (s : State)
      → let t =
          (invoke_upstream p gaps ctx reply now c decode marshal high_assurance o name args s).0 in
        (t.crossings ≡ s.crossings)
        ⊎ ((x : Crossing) × (t.crossings ≡ s.crossings ++ x ∷ []) × IsReached name args s x)
  invoke-IsReached name args s = elim (invoke-Guarded name args s) [
    | stopped h ↦ inl h
    | crossed x a h ↦ inr (x, h, a)
  ]
