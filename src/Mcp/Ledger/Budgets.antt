-- ===== src/Mcp/Ledger/Budgets.antt =====
-- Calls of the ledger, one after the other, and what an append leaves alone.
use microagency.Base.{ℕ, refl, inl, inr, Bool, List, [], arith, Text, ◌≡◌, ◌⊎◌, ◌∷◌}
use microagency.Mcp.Grant.{OperationGrant, EvaluatedGrant}
use microagency.Mcp.Ledger.{
  Ledger, Crypto, Outcome, Error, DecisionRecord, Result, ok, err, append_decision_locked,
  save_anchor,
}
use microagency.Mcp.Ledger.Authorize.{Refused, refuse_decision, authorize_decision, refused_record}

module _ (c : Crypto) where
  -- Appending a record leaves the usage alone.
  usage-save_anchor : (b : Bool) (s : Ledger) → (save_anchor c b s).0.usage ≡ s.usage
  unfolding save_anchor
  usage-save_anchor b s = ground arith

  pub usage-append :
      (o : Outcome) (entry : DecisionRecord) (s : Ledger)
      → (append_decision_locked c o entry s).0.usage ≡ s.usage
  unfolding append_decision_locked
  usage-append o entry s = ground arith

  pub usage-refuse :
      (o : Outcome) (r : Refused) (reason : Text) (now : ℕ) (s : Ledger)
      → (refuse_decision c o r reason now s).0.usage ≡ s.usage
  unfolding refuse_decision
  usage-refuse o r reason now s = ground (arith, usage-append o (refused_record r reason now) s)

pub data Call : Type 0 where
  authorizes : Outcome → EvaluatedGrant → ℕ → ℕ → Call
  refuses : Outcome → Refused → Text → ℕ → Call

-- A call with this digest is about this grant.
abbrev pub IsOf : Text → OperationGrant → Call → Type 0
IsOf d g (authorizes o ev args_bytes now) = ev.digest ≡ d → ev.grant ≡ g
IsOf d g (refuses o r reason now) = Unit {0}

pub Result-cases :
    (r : Ledger × Result)
    → ((t : Ledger) × (r ≡ (t, ok))) ⊎ ((t : Ledger) × (f : Error) × (r ≡ (t, err f)))
Result-cases (t, ok) = inl (t, refl)
Result-cases (t, err f) = inr (t, f, refl)

module _ (c : Crypto) where
  unfoldable pub step : Ledger → Call → Ledger
  step s (authorizes o ev args_bytes now) = (authorize_decision c o ev args_bytes now s).0
  step s (refuses o r reason now) = (refuse_decision c o r reason now s).0

  unfoldable pub run : Ledger → List Call → Ledger
  unfolding step
  run s [] = s
  run s (call ∷ calls) = run (step s call) calls
