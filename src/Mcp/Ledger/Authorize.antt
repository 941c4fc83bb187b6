-- ===== src/Mcp/Ledger/Authorize.antt =====
-- internal/mcp/decisionledger.go: `authorizeDecision` and the refusals. Times are in nanoseconds.
use microagency.Base.{
  ℕ, Option, none, some, List, [], ltb, length, keep, Text, codes, ◌+◌, ◌*◌, ◌∷◌, ◌++◌,
  if◌then◌else◌,
}
use microagency.Base.Map
use microagency.Base.Map.{Map}
use microagency.Mcp.Grant.{RateGrant, EvaluatedGrant}
use microagency.Mcp.Ledger.{
  Ledger, Crypto, Outcome, authorized, refused, DecisionRecord, GrantUsage, Result, ok, err,
  refusal, append_decision_locked,
}

-- The result of a refusal is its reason, or what kept it out of the ledger.
abbrev pub refusal_result : Text → Ledger × Result → Ledger × Result
refusal_result reason (s, ok) = (s, err (refusal reason))
refusal_result reason (s, err e) = (s, err e)

abbrev pub no_usage : GrantUsage
no_usage = record { requests = 0; bytes = 0; times = [] }

abbrev pub usage_of : Option GrantUsage → GrantUsage
usage_of none = no_usage
usage_of (some u) = u

-- The times that are still inside the rate window, which ends now.
unfoldable pub recent : ℕ → RateGrant → List ℕ → List ℕ
recent now rate times = keep (λ at. ltb now (at + rate.window_s * 1000000000)) times

-- The usage is held by a pointer: dropping old times changes what is stored, if it is stored.
unfoldable pub store_recent : Text → ℕ → RateGrant → Map GrantUsage → Map GrantUsage
unfolding recent
store_recent digest now rate usage = elim (Map.get digest usage) [
  | none ↦ usage
  | some u ↦ Map.put digest (record u { times = recent now rate u.times }) usage
]

-- What an authorization adds to the usage.
unfoldable pub charge : EvaluatedGrant → ℕ → ℕ → GrantUsage → GrantUsage
unfolding recent
charge ev reserved now u = record {
  requests = u.requests + 1;
  bytes = u.bytes + reserved;
  times = recent now ev.grant.rate u.times ++ now ∷ [];
}

abbrev pub charged : EvaluatedGrant → ℕ → ℕ → GrantUsage → Ledger × Result → Ledger × Result
charged ev reserved now u (s, ok) =
    (record s { usage = Map.put ev.digest (charge ev reserved now u) s.usage }, ok)
charged ev reserved now u (s, err e) = (s, err e)

unfoldable pub authorized_record : EvaluatedGrant → ℕ → ℕ → DecisionRecord
authorized_record ev args_bytes now = record {
  timestamp = now;
  principal = ev.grant.principal;
  campaign = ev.grant.campaign;
  grant_id = ev.grant.id;
  grant_digest = ev.digest;
  connection = ev.grant.connection;
  operation = ev.grant.tool;
  effect = ev.grant.effect;
  decision = authorized;
  reason = codes "grant matched";
  request_bytes = args_bytes;
  reserved_bytes = args_bytes + ev.grant.max_response_bytes;
  resource_ids = ev.resource_ids;
  shared_writable = ev.shared_writable_ids;
}

-- The names that a refusal records.
pub record Refused : Type 0 where
  pub principal : Text
  pub campaign : Text
  pub connection : Text
  pub operation : Text
  pub grant_id : Text
  pub grant_digest : Text

unfoldable pub refused_record : Refused → Text → ℕ → DecisionRecord
refused_record r reason now = record {
  timestamp = now;
  principal = r.principal;
  campaign = r.campaign;
  grant_id = r.grant_id;
  grant_digest = r.grant_digest;
  connection = r.connection;
  operation = r.operation;
  effect = [];
  decision = refused;
  reason = reason;
  request_bytes = 0;
  reserved_bytes = 0;
  resource_ids = [];
  shared_writable = [];
}

abbrev pub of_evaluated : EvaluatedGrant → Refused
of_evaluated ev = record {
  principal = ev.grant.principal;
  campaign = ev.grant.campaign;
  connection = ev.grant.connection;
  operation = ev.grant.tool;
  grant_id = ev.grant.id;
  grant_digest = ev.digest;
}

module _ (c : Crypto) where
  unfoldable pub refuse_decision : Outcome → Refused → Text → ℕ → Ledger → Ledger × Result
  unfolding refused_record
  refuse_decision o r reason now s =
      refusal_result reason (append_decision_locked c o (refused_record r reason now) s)

  -- `authorizeDecision`: the budgets are tested in this order, and the record is in the ledger
  -- before the usage is charged.
  unfoldable pub authorize_decision : Outcome → EvaluatedGrant → ℕ → ℕ → Ledger → Ledger × Result
  unfolding refuse_decision store_recent recent charge authorized_record
  authorize_decision o ev args_bytes now s =
      let u = usage_of (Map.get ev.digest s.usage) in
      let reserved = args_bytes + ev.grant.max_response_bytes in
      if ltb ev.grant.max_requests (u.requests + 1)
      then refuse_decision o (of_evaluated ev) (codes "request budget exhausted") now s
      else if ltb ev.grant.max_bytes (u.bytes + reserved)
      then refuse_decision o (of_evaluated ev) (codes "byte budget exhausted") now s
      else let pruned = record s { usage = store_recent ev.digest now ev.grant.rate s.usage } in
        if ltb ev.grant.rate.requests (length (recent now ev.grant.rate u.times) + 1)
        then refuse_decision o (of_evaluated ev) (codes "rate budget exhausted") now pruned
        else charged ev reserved now u
            (append_decision_locked c o (authorized_record ev args_bytes now) pruned)
