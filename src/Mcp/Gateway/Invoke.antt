-- ===== src/Mcp/Gateway/Invoke.antt =====
-- internal/mcp/gateway.go: `invokeUpstream`, the single gate in front of the upstreams, and `proxyCall` up
-- to the answer of the upstream. The shaping of a good answer (references, offloads, minimization) is not
-- modelled; the arguments are those after the placeholders were resolved, and `gaps` says whether they
-- fail the schema of the tool.
use microagency.Base.{
  ℕ, Bool, true, false, not, Option, none, some, List, [], ltb, is_some, length, Text, codes,
  text_eq, is_empty, cut_at, member, ◌&&◌, ◌||◌, ◌∷◌, ◌++◌, if◌then◌else◌,
}
use microagency.Base.Map
use microagency.Auth.Identity.{principal_key}
use microagency.Mcp.Packages.{Packages}
use microagency.Mcp.Json.{Json}
use microagency.Mcp.Grant.{OperationGrant, EvaluatedGrant, effect_read, effect_write}
use microagency.Mcp.Grant.Evaluate.{denied, granted, evaluate_operation_grant, grant_digest}
use microagency.Mcp.Ledger.{Ledger, Crypto, Outcome, Result, ok, err}
use microagency.Mcp.Ledger.Authorize.{Refused, refuse_decision, authorize_decision}
use microagency.Mcp.Gateway.{Tool, Conn, Upstream, Registry}
use microagency.Mcp.Gateway.Tools.{find_tool, is_write_tool, is_high_assurance_write_tool}
use microagency.Mcp.Gateway.Operations.{record_upstream_health, bump_usage}
use microagency.Mcp.Gateway.Visible.{
  matching_grant, is_owned_by_other, are_shared, Peer, indistinguishable_peers, label_distinguishes,
}

-- The caller of the context, with the verified email that it acts as, or an empty text; `program` is
-- the allowlist of a governed program.
pub record Context : Type 0 where
  pub issuer : Text
  pub subject : Text
  pub campaign : Text
  pub email : Text
  pub program : Option (List Text)

abbrev pub caller_key : Context → Text
caller_key ctx = principal_key ctx.issuer ctx.subject

-- What the upstream, or the cache of reads in front of it, answers: the client stopped waiting, an
-- error, or a result, which may not be JSON of an object.
pub data Reply : Type 0 where
  canceled : Reply
  errored : Text → Reply
  replied : Text → Bool → Reply

-- A call that was handed over.
pub record Crossing : Type 0 where
  pub conn : Conn
  pub tool : Text
  pub args : Text
  pub authority : Option EvaluatedGrant

pub data ProxyResult : Type 0 where
  not_in_program program_write read_only_write schema_block : ProxyResult
  still_running upstream_error withheld malformed delivered : ProxyResult

-- The audit records: a denial of a governed call, or the single record of a proxied call.
pub data Run : Type 0 where
  denial : Refused → Text → Run
  proxied : Text → Text → Option EvaluatedGrant → ProxyResult → Run
  without_identity : Text → Text → Option EvaluatedGrant → Run

pub data Answer : Type 0 where
  not_qualified unknown_tool not_authorized not_enabled no_identity : Answer
  ambiguous : List Peer → Answer
  proxy : ProxyResult → Answer

pub record State : Type 0 where
  pub registry : Registry
  pub ledger : Ledger
  pub runs : List Run
  pub crossings : List Crossing

-- The reason of the first test that fails.
abbrev pub first_reason : List (Bool × Text) → Option Text
first_reason [] = none
first_reason ((b, reason) ∷ tests) = if b then some reason else first_reason tests

unfoldable pub in_program : Context → Text → Bool
unfolding member
in_program ctx name = elim ctx.program [ none ↦ true | some allowed ↦ member name allowed ]

abbrev pub is_ok : Result → Bool
is_ok ok = true
is_ok (err e) = false

abbrev pub is_governed : Bool → Upstream → Bool
is_governed high_assurance u = high_assurance || not (is_empty u.grants)

abbrev pub gaps_of : (Tool → Text → Bool) → Option Tool → Text → Bool
gaps_of gaps none args = false
gaps_of gaps (some t) args = gaps t args

module _ (p : Packages) where
  -- The tool writes, or it is not known.
  unfoldable pub may_write : Option Tool → Bool
  unfolding is_write_tool
  may_write none = true
  may_write (some t) = is_write_tool p t

  -- The effect of the grant is not that of the tool.
  unfoldable pub disagrees : Upstream → Text → OperationGrant → Bool
  unfolding find_tool is_high_assurance_write_tool
  disagrees u tool g = elim (find_tool u.tools tool) [
    | none ↦ true
    | some t ↦
        if is_high_assurance_write_tool p t
        then not (text_eq g.effect effect_write)
        else not (text_eq g.effect effect_read)
  ]

  -- The tests of a governed call before its arguments are read.
  unfoldable pub governed_tests :
      Bool → Context → Text → Upstream → Text → OperationGrant → List (Bool × Text)
  unfolding disagrees in_program are_shared
  governed_tests high_assurance ctx name u tool g =
      let writes = text_eq g.effect effect_write in
      let shared = text_eq u.owner [] in
      (high_assurance && not g.high_assurance, codes "grant is not marked high assurance")
      ∷ (
        shared && not g.allow_shared,
        codes "shared connection credential is not explicitly granted",
      )
      ∷ (disagrees u tool g, codes "operation effect disagrees with retained tool authority")
      ∷ (u.read_only && writes, codes "connection is read-only")
      ∷ (
        is_some ctx.program && not (in_program ctx name && text_eq g.effect effect_read),
        codes "governed program authority does not include the operation",
      )
      ∷ (writes && is_empty g.resources, codes "write operation has no explicit resource namespace")
      ∷ (
        shared && writes && not (are_shared g.resources),
        codes "shared writable namespace is not explicitly granted",
      )
      ∷ []

  -- The gates of `proxyCall` before the call, with the result of the one that refuses.
  unfoldable pub proxy_gate :
      (Tool → Text → Bool) → Context → Text → Upstream → Text → Text → Option ProxyResult
  unfolding find_tool may_write in_program
  proxy_gate gaps ctx name u tool args =
      let spec = find_tool u.tools tool in
      let writes = may_write spec in
      if not (in_program ctx name)
      then some not_in_program
      else if is_some ctx.program && writes
      then some program_write
      else if u.read_only && writes
      then some read_only_write
      else if writes && gaps_of gaps spec args
      then some schema_block
      else none

  unfoldable pub too_long : Option EvaluatedGrant → Text → Bool
  too_long none res = false
  too_long (some ev) res = ltb ev.grant.max_response_bytes (length res)

  -- `proxyCall` after the gates: the health and the use of the connection, and how the answer is taken.
  unfoldable pub take_reply :
      Text → Text → Option EvaluatedGrant → Reply → ℕ → Registry → Registry × ProxyResult
  unfolding record_upstream_health bump_usage too_long
  take_reply up name authority canceled now reg = (reg, still_running)
  take_reply up name authority (errored message) now reg =
      (record_upstream_health up (some message) now reg, upstream_error)
  take_reply up name authority (replied res object) now reg =
      let seen = record_upstream_health up none now reg in
      if too_long authority res
      then (seen, withheld)
      else if object
      then (bump_usage name seen, delivered)
      else (seen, malformed)

  module _ (gaps : Tool → Text → Bool) (ctx : Context) (reply : Reply) (now : ℕ) where
    -- `proxyCall` and the record of its outcome.
    unfoldable pub proxy_call :
        Text → Text → Text → Upstream → Text → Option EvaluatedGrant → State → State × Answer
    unfolding proxy_gate take_reply
    proxy_call up tool name u args authority s = elim (proxy_gate gaps ctx name u tool args) [
      | some refusal ↦
          (record s { runs = s.runs ++ proxied up tool authority refusal ∷ [] }, proxy refusal)
      | none ↦
          let (reg, result) = take_reply up name authority reply now s.registry in
          let crossing : Crossing = record {
            conn = u.conn;
            tool = tool;
            args = args;
            authority = authority;
          } in
          (
            record s {
              registry = reg;
              runs = s.runs ++ proxied up tool authority result ∷ [];
              crossings = s.crossings ++ crossing ∷ [];
            },
            proxy result,
          )
    ]

    -- A delegated connection needs the email that the caller acts as.
    unfoldable pub call_as :
        Text → Text → Text → Upstream → Text → Option EvaluatedGrant → State → State × Answer
    unfolding proxy_call
    call_as up tool name u args authority s =
        if is_some u.delegation && text_eq ctx.email []
        then (record s { runs = s.runs ++ without_identity up tool authority ∷ [] }, no_identity)
        else proxy_call up tool name u args authority s

    module _ (c : Crypto) (decode : Text → Option Json) (marshal : OperationGrant → Text)
        (high_assurance : Bool) (o : Outcome) where
      abbrev pub refused_call : Text → Text → Text → Text → Refused
      refused_call up tool id digest = record {
        principal = caller_key ctx;
        campaign = ctx.campaign;
        connection = up;
        operation = tool;
        grant_id = id;
        grant_digest = digest;
      }

      -- `deny`: the refusal goes to the ledger and to the audit, and the caller sees one answer.
      unfoldable pub deny : Text → Text → Text → Text → Text → State → State × Answer
      unfolding refuse_decision principal_key
      deny up tool id digest reason s = (
        record s {
          ledger = (refuse_decision c o (refused_call up tool id digest) reason now s.ledger).0;
          runs = s.runs ++ denial (refused_call up tool id digest) reason ∷ [];
        },
        not_authorized,
      )

      -- The evaluated call is charged in the ledger before it crosses.
      unfoldable pub authorize_call :
          Text → Text → Text → Upstream → Text → EvaluatedGrant → State → State × Answer
      unfolding authorize_decision call_as
      authorize_call up tool name u args ev s =
          let (ledger, result) = authorize_decision c o ev (length args) now s.ledger in
          let charged : State = record s { ledger = ledger } in
          if is_ok result then call_as up tool name u args (some ev) charged else (
            record charged {
              runs =
                  s.runs
                  ++ denial (refused_call up tool ev.grant.id ev.digest)
                      (codes "decision ledger or budget refused crossing")
                    ∷ [];
            },
            not_authorized,
          )

      unfoldable pub judge_call :
          Text → Text → Text → Upstream → Text → OperationGrant → State → State × Answer
      unfolding governed_tests evaluate_operation_grant grant_digest deny authorize_call
          principal_key
      judge_call up tool name u args g s =
          let digest = grant_digest p marshal g in
          elim (first_reason (governed_tests high_assurance ctx name u tool g)) [
            | some reason ↦ deny up tool g.id digest reason s
            | none ↦
                elim (evaluate_operation_grant p decode marshal g (caller_key ctx) ctx.campaign tool
                  args now) [
                    | denied reason ↦ deny up tool g.id digest reason s
                    | granted ev ↦ authorize_call up tool name u args ev s
                  ]
          ]

      -- The branch of a connection with grants, or under high assurance.
      unfoldable pub governed_call :
          Text → Text → Text → Upstream → Text → Option OperationGrant → State → State × Answer
      unfolding deny judge_call
      governed_call up tool name u args none s =
          deny up tool [] [] (codes "exact operation grant is absent") s
      governed_call up tool name u args (some g) s = judge_call up tool name u args g s

      -- The branch of the others: the call must not be a guess.
      unfoldable pub ungoverned_call : Text → Text → Text → Upstream → Text → State → State × Answer
      unfolding indistinguishable_peers label_distinguishes call_as principal_key
      ungoverned_call up tool name u args s =
          let peers =
            indistinguishable_peers p high_assurance now u (caller_key ctx) ctx.campaign ctx.email
              up tool s.registry in
          if not (is_empty peers) && not (label_distinguishes p u.label peers)
          then (s, ambiguous peers)
          else call_as up tool name u args none s

      abbrev id_of : Option OperationGrant → Text
      id_of none = []
      id_of (some g) = g.id

      abbrev digest_of : Option OperationGrant → Text
      unfolding grant_digest
      digest_of none = []
      digest_of (some g) = grant_digest p marshal g

      -- The answer of an early gate: opaque for a governed connection.
      unfoldable pub turn_away :
          Text → Text → Upstream → Option OperationGrant → Text → Answer → State → State × Answer
      unfolding deny grant_digest
      turn_away up tool u g reason plain s =
          if is_governed high_assurance u
          then deny up tool (id_of g) (digest_of g) reason s
          else (s, plain)

      unfoldable pub authorized_call :
          Text → Text → Text → Upstream → Text → Option OperationGrant → State → State × Answer
      unfolding governed_call ungoverned_call
      authorized_call up tool name u args g s =
          if is_governed high_assurance u
          then governed_call up tool name u args g s
          else ungoverned_call up tool name u args s

      unfoldable pub enabled_call :
          Text → Text → Text → Upstream → Text → Option OperationGrant → State → State × Answer
      unfolding turn_away authorized_call
      enabled_call up tool name u args g s =
          if not u.enabled
          then turn_away up tool u g (codes "connection is not enabled") not_enabled s
          else authorized_call up tool name u args g s

      unfoldable pub live_call :
          Text → Text → Text → Upstream → Text → Option OperationGrant → State → State × Answer
      unfolding turn_away enabled_call
      live_call up tool name u args g s =
          if u.revoked
          then turn_away up tool u g (codes "connection authority is revoked") unknown_tool s
          else enabled_call up tool name u args g s

      -- The gates of a connection in their order: the owner, the revocation, the operator's enabling, and
      -- the authority of the call.
      unfoldable pub call_known : Text → Text → Text → Upstream → Text → State → State × Answer
      unfolding matching_grant turn_away live_call principal_key
      call_known up tool name u args s =
          let g = matching_grant u.grants (caller_key ctx) ctx.campaign tool in
          if is_owned_by_other u (caller_key ctx)
          then turn_away up tool u g (codes "caller does not own the connection") unknown_tool s
          else live_call up tool name u args g s

      unfoldable pub call_named :
          Text → Text → Text → Text → Option Upstream → State → State × Answer
      unfolding deny call_known
      call_named up tool name args none s =
          if high_assurance
          then deny up tool [] [] (codes "connection or operation is not granted") s
          else (s, unknown_tool)
      call_named up tool name args (some u) s = call_known up tool name u args s

      unfoldable pub invoke_upstream : Text → Text → State → State × Answer
      unfolding cut_at call_named
      invoke_upstream name args s = elim (cut_at (codes "__") name) [
        | none ↦ (s, not_qualified)
        | some (up, tool) ↦ call_named up tool name args (Map.get up s.registry.conns) s
      ]
