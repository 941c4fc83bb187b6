-- ===== src/Mcp/Ledger/Cases.antt =====
-- The ways in which an append ends, for the proofs about the ledger.
use microagency.Base.{
  ℕ, not, some, arith, ltb, length, Text, codes, if_cases, option_cases, ◌+◌, ◌≤◌, ◌≡◌,
}
use microagency.Mcp.Ledger.{
  Ledger, GrantUsage, Crypto, Outcome, DecisionRecord, Error, untrusted_ledger, no_state_directory,
  no_signer, no_anchor_store, sign_failed, Result, err, decision_hash, next_line, write_line,
  append_decision_locked,
}
use microagency.Base.Map
use microagency.Mcp.Grant.{EvaluatedGrant}
use microagency.Mcp.Ledger.Authorize.{
  usage_of, recent, store_recent, refuse_decision, charged, of_evaluated, authorized_record,
  authorize_decision,
}

module _ (c : Crypto) (P : Ledger × Result → Type 0) where
  pub append_cases :
      (o : Outcome) (entry : DecisionRecord) (s : Ledger)
      → ((e : Error) → P (s, err e))
      → ((sig : Text)
          → c.sign (decision_hash c s.head (s.sequence + 1) entry) ≡ some sig
          → P (write_line c o (next_line c entry s sig) s))
      → P (append_decision_locked c o entry s)
  unfolding append_decision_locked
  append_cases o entry s failed written =
      if_cases P s.load_err _ _ (λ _. failed untrusted_ledger)
        λ _.
          if_cases P (not s.path) _ _ (λ _. failed no_state_directory)
            λ _.
              if_cases P (not s.signer) _ _ (λ _. failed no_signer)
                λ _.
                  if_cases P (not s.secrets) _ _ (λ _. failed no_anchor_store)
                    λ _.
                      option_cases P (c.sign (decision_hash c s.head (s.sequence + 1) entry)) _ _
                        (λ _. failed sign_failed) written

  -- The ways in which an authorization ends: refused, refused after old times were dropped, or
  -- written and charged.
  pub authorize_rule :
      (o : Outcome) (ev : EvaluatedGrant) (args_bytes now : ℕ) (s : Ledger)
      → let u = usage_of (Map.get ev.digest s.usage) in
        let pruned = record s { usage = store_recent ev.digest now ev.grant.rate s.usage } in
        ((reason : Text) → P (refuse_decision c o (of_evaluated ev) reason now s))
        → ((reason : Text) → P (refuse_decision c o (of_evaluated ev) reason now pruned))
        → ((u.requests + 1 ≤ ev.grant.max_requests)
              × (u.bytes + (args_bytes + ev.grant.max_response_bytes) ≤ ev.grant.max_bytes)
              × (length (recent now ev.grant.rate u.times) + 1 ≤ ev.grant.rate.requests)
            → P (
                charged ev
                  (args_bytes + ev.grant.max_response_bytes)
                  now
                  u
                  (append_decision_locked c o (authorized_record ev args_bytes now) pruned)))
        → P (authorize_decision c o ev args_bytes now s)
  unfolding authorize_decision
  authorize_rule o ev args_bytes now s refused late written =
      if_cases P (ltb ev.grant.max_requests (u.requests + 1)) _ _
        (λ _. refused (codes "request budget exhausted"))
        λ calls.
          if_cases P (ltb ev.grant.max_bytes (u.bytes + reserved)) _ _
            (λ _. refused (codes "byte budget exhausted"))
            λ bytes.
              if_cases P
                (ltb ev.grant.rate.requests (length (recent now ev.grant.rate u.times) + 1)) _ _
                (λ _. late (codes "rate budget exhausted"))
                λ rate. written (ground arith, ground arith, ground arith)
    where
      u : GrantUsage
      u = usage_of (Map.get ev.digest s.usage)

      reserved : ℕ
      reserved = args_bytes + ev.grant.max_response_bytes
