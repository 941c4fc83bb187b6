-- ===== src/Mcp/Ledger/Spent.antt =====
-- internal/mcp/decisionledger.go: what the ledger authorizes for a grant, against the grant's budgets.
use microagency.Base.{
  ℕ, refl, sym, ap, inl, inr, none, List, [], arith, Bool-cases, Option-cases, length, keep, All,
  Text, text_eq, text_eq_iff, if_cases, ◌+◌, ◌*◌, ◌≤◌, ◌≡◌, ◌∙◌, ◌∷◌, ◌++◌, if◌then◌else◌,
}
use mathlib.Core.Path.{subst}
use microagency.Base.Map
use microagency.Base.Map.{Map, get-put}
use microagency.Mcp.Grant.{OperationGrant, RateGrant, EvaluatedGrant}
use microagency.Mcp.Ledger.{
  refusal, Error, Ledger, Crypto, Outcome, GrantUsage, Result, ok, err, append_decision_locked,
}
use microagency.Mcp.Ledger.Authorize.{
  Refused, usage_of, recent, store_recent, charge, refuse_decision, authorize_decision,
  refused_record, authorized_record, of_evaluated, charged, refusal_result,
}
use microagency.Mcp.Ledger.Cases.{authorize_rule}
use microagency.Mcp.Ledger.Budgets.{usage-append, usage-refuse, Call, authorizes, refuses, IsOf}
use microagency.Mcp.Ledger.Windows.{Authorization, spent, in_window, live, live_among}
use microagency.Mcp.Ledger.Accounts.{
  InBudget, Track, waited-Track, pruned-Track, charged-Track, charged-InBudget,
}

-- What a call adds: an authorization under the digest that was given out adds its time and its bytes.
unfoldable pub authorized_by : Text → Call → Result → List Authorization
authorized_by d (authorizes o ev args_bytes now) ok =
    if text_eq ev.digest d then (now, args_bytes + ev.grant.max_response_bytes) ∷ [] else []
authorized_by d (authorizes o ev args_bytes now) (err e) = []
authorized_by d (refuses o r reason now) result = []

-- The clock does not go back between authorizations.
abbrev pub AllAfter : ℕ → List Call → Type 0
AllAfter last [] = Unit
AllAfter last (authorizes o ev args_bytes now ∷ calls) = (last ≤ now) × AllAfter now calls
AllAfter last (refuses o r reason now ∷ calls) = AllAfter last calls

module _ (c : Crypto) where
  unfoldable pub call_result : Ledger → Call → Ledger × Result
  call_result s (authorizes o ev args_bytes now) = authorize_decision c o ev args_bytes now s
  call_result s (refuses o r reason now) = refuse_decision c o r reason now s

  -- The authorizations that the calls give out under the digest, before those that were there.
  unfoldable pub authorizations :
      Text → List Authorization → Ledger → List Call → List Authorization
  unfolding call_result
  authorizations d t s [] = t
  authorizations d t s (call ∷ calls) =
      let r = call_result s call in authorizations d (authorized_by d call r.1 ++ t) r.0 calls

usage_of-store_recent :
    (d e : Text) (now : ℕ) (rate : RateGrant) (usage : Map GrantUsage)
    → usage_of (Map.get d (store_recent e now rate usage)) ≡ (
        if text_eq e d
        then record (usage_of (Map.get d usage)) {
          times = recent now rate (usage_of (Map.get d usage)).times;
        }
        else usage_of (Map.get d usage))
unfolding store_recent recent keep
usage_of-store_recent d e now rate usage = elim (Option-cases (Map.get e usage)) [
  | inl n ↦ ground (arith, n, text_eq_iff e d)
  | inr (u, s) ↦
      ground (
        arith,
        s,
        text_eq_iff e d,
        get-put e d (record u { times = recent now rate u.times }) usage,
      )
]

usage_of-put :
    (d e : Text) (u : GrantUsage) (usage : Map GrantUsage)
    → usage_of (Map.get d (Map.put e u usage))
      ≡ (if text_eq e d then u else usage_of (Map.get d usage))
usage_of-put d e u usage = ground (arith, get-put e d u usage)

-- The ledger accounts for the authorizations, and they are inside the budgets.
abbrev Holds : Text → OperationGrant → ℕ → List Authorization → Ledger → Type 0
Holds d g last t s = Track g last t (usage_of (Map.get d s.usage)) × InBudget g t

refusal-err :
    (reason : Text) (r : Ledger × Result) → (e : Error) × ((refusal_result reason r).1 ≡ err e)
refusal-err reason (s, ok) = (refusal reason, refl)
refusal-err reason (s, err e) = (e, refl)

module _ (c : Crypto) (d : Text) (g : OperationGrant) where
  refused-result :
      (o : Outcome) (r : Refused) (reason : Text) (now : ℕ) (s : Ledger)
      → (e : Error) × ((refuse_decision c o r reason now s).1 ≡ err e)
  unfolding refuse_decision
  refused-result o r reason now s =
      refusal-err reason (append_decision_locked c o (refused_record r reason now) s)

  -- What holds of a ledger after a call of the time, which was authorized or not.
  abbrev After : ℕ → List Authorization → Call → Ledger × Result → Type 0
  After now t call r = Holds d g now (authorized_by d call r.1 ++ t) r.0

  unpaid : (call : Call) (e : Error) → authorized_by d call (err e) ≡ []
  unfolding authorized_by
  unpaid (authorizes o ev args_bytes now) e = refl
  unpaid (refuses o r reason now) e = refl

  same-Holds :
      (last : ℕ) (t : List Authorization) (s s' : Ledger)
      → s'.usage ≡ s.usage
      → Holds d g last t s
      → Holds d g last t s'
  same-Holds last t s s' e h =
      subst (λ m. Track g last t (usage_of (Map.get d m)) × InBudget g t) (sym e) h

  unpaid-After :
      (now : ℕ) (t : List Authorization) (call : Call) (s : Ledger) (r : Ledger × Result)
      (e : Error)
      → r.1 ≡ err e
      → r.0.usage ≡ s.usage
      → Holds d g now t s
      → After now t call r
  unpaid-After now t call s r e f u h =
      subst (λ x. Holds d g now (x ++ t) r.0)
        (sym (ap (λ (q : Result). authorized_by d call q) f ∙ unpaid call e))
        (same-Holds now t s r.0 u h)

  refused-After :
      (now : ℕ) (t : List Authorization) (call : Call) (o : Outcome) (r : Refused) (reason : Text)
      (at : ℕ) (s : Ledger)
      → Holds d g now t s
      → After now t call (refuse_decision c o r reason at s)
  refused-After now t call o r reason at s h =
      let (e, f) = refused-result o r reason at s in
      unpaid-After now t call s (refuse_decision c o r reason at s) e f
        (usage-refuse c o r reason at s) h

  pruned-Holds :
      (ev : EvaluatedGrant) (last now : ℕ) (t : List Authorization) (s : Ledger)
      → (ev.digest ≡ d → ev.grant ≡ g)
      → last ≤ now
      → Holds d g last t s
      → Holds d g now t (record s { usage = store_recent ev.digest now ev.grant.rate s.usage })
  pruned-Holds ev last now t s of le (h, b) =
      let u = usage_of (Map.get d s.usage) in
      rw (usage_of-store_recent d ev.digest now ev.grant.rate s.usage) (
        if_cases (λ (v : GrantUsage). Track g now t v × InBudget g t) (text_eq ev.digest d) _ _
          (λ e. rw (of ((text_eq_iff ev.digest d).0 e)) (pruned-Track g last now t u le h, b))
          (λ _. (waited-Track g last now t u le h, b)))

  paid-After :
      (o : Outcome) (ev : EvaluatedGrant) (args_bytes last now : ℕ) (t : List Authorization)
      (s : Ledger)
      → let u = usage_of (Map.get ev.digest s.usage) in
        let reserved = args_bytes + ev.grant.max_response_bytes in
        let pruned = record s { usage = store_recent ev.digest now ev.grant.rate s.usage } in
        (ev.digest ≡ d → ev.grant ≡ g)
        → last ≤ now
        → Holds d g last t s
        → (u.requests + 1 ≤ ev.grant.max_requests)
          × (u.bytes + reserved ≤ ev.grant.max_bytes)
          × (length (recent now ev.grant.rate u.times) + 1 ≤ ev.grant.rate.requests)
        → (after : Ledger) → after.usage ≡ pruned.usage
        → Holds d g now
            (authorized_by d (authorizes o ev args_bytes now) ok ++ t)
            (record after { usage = Map.put ev.digest (charge ev reserved now u) after.usage })
  unfolding authorized_by
  paid-After o ev args_bytes last now t s of le h fits after same =
      let u = usage_of (Map.get ev.digest s.usage) in
      let reserved = args_bytes + ev.grant.max_response_bytes in
      let pruned = record s { usage = store_recent ev.digest now ev.grant.rate s.usage } in
      rw (usage_of-put d ev.digest (charge ev reserved now u) after.usage)
        (elim (Bool-cases (text_eq ev.digest d)) [
          | inl e ↦
              let f = (text_eq_iff ev.digest d).0 e in
              let k = of f in
              let tracked : Track g last t u =
                subst (λ q. Track g last t (usage_of (Map.get q s.usage))) (sym f) h.0 in
              rw (e, if◌then◌else◌)
                (
                  charged-Track g ev reserved last now t u k le tracked,
                  charged-InBudget g reserved last now t u le tracked h.1
                      (subst (λ (q : OperationGrant). u.requests + 1 ≤ q.max_requests) k fits.0)
                      (subst (λ (q : OperationGrant). u.bytes + reserved ≤ q.max_bytes) k fits.1)
                      (subst
                        (λ (q : OperationGrant).
                          length (recent now q.rate u.times) + 1 ≤ q.rate.requests)
                        k fits.2),
                )
          | inr e ↦ rw e (same-Holds now t pruned after same (pruned-Holds ev last now t s of le h))
        ])

  charged-After :
      (o : Outcome) (ev : EvaluatedGrant) (args_bytes last now : ℕ) (t : List Authorization)
      (s : Ledger)
      → let u = usage_of (Map.get ev.digest s.usage) in
        let reserved = args_bytes + ev.grant.max_response_bytes in
        let pruned = record s { usage = store_recent ev.digest now ev.grant.rate s.usage } in
        (ev.digest ≡ d → ev.grant ≡ g)
        → last ≤ now
        → Holds d g last t s
        → (u.requests + 1 ≤ ev.grant.max_requests)
          × (u.bytes + reserved ≤ ev.grant.max_bytes)
          × (length (recent now ev.grant.rate u.times) + 1 ≤ ev.grant.rate.requests)
        → (r : Ledger × Result) → r.0.usage ≡ pruned.usage
        → After now t (authorizes o ev args_bytes now) (charged ev reserved now u r)
  charged-After o ev args_bytes last now t s of le h fits (after, ok) same =
      paid-After o ev args_bytes last now t s of le h fits after same
  charged-After o ev args_bytes last now t s of le h fits (after, err e) same =
      unpaid-After now t (authorizes o ev args_bytes now)
        (record s { usage = store_recent ev.digest now ev.grant.rate s.usage }) (after, err e) e
        refl same (pruned-Holds ev last now t s of le h)

  authorize-After :
      (o : Outcome) (ev : EvaluatedGrant) (args_bytes last now : ℕ) (t : List Authorization)
      (s : Ledger)
      → (ev.digest ≡ d → ev.grant ≡ g)
      → last ≤ now
      → Holds d g last t s
      → After now t (authorizes o ev args_bytes now) (authorize_decision c o ev args_bytes now s)
  authorize-After o ev args_bytes last now t s of le h =
      let call = authorizes o ev args_bytes now in
      let pruned = record s { usage = store_recent ev.digest now ev.grant.rate s.usage } in
      let waited : Holds d g now t s =
        (waited-Track g last now t (usage_of (Map.get d s.usage)) le h.0, h.1) in
      authorize_rule c (After now t call) o ev args_bytes now s
        (λ reason. refused-After now t call o (of_evaluated ev) reason now s waited)
        (λ reason.
          refused-After now t call o (of_evaluated ev) reason now pruned
            (pruned-Holds ev last now t s of le h))
        (λ fits.
          charged-After o ev args_bytes last now t s of le h fits
            (append_decision_locked c o (authorized_record ev args_bytes now) pruned)
            (usage-append c o (authorized_record ev args_bytes now) pruned))

  authorizations-InBudget :
      (last : ℕ) (t : List Authorization) (s : Ledger) (calls : List Call)
      → All (IsOf d g) calls
      → AllAfter last calls
      → Holds d g last t s
      → InBudget g (authorizations c d t s calls)
  unfolding authorizations call_result
  authorizations-InBudget last t s [] of after h = h.1
  authorizations-InBudget last t s (authorizes o ev args_bytes now ∷ calls) of after h =
      let r = authorize_decision c o ev args_bytes now s in
      authorizations-InBudget now (authorized_by d (authorizes o ev args_bytes now) r.1 ++ t) r.0
        calls of.1 after.1 (authorize-After o ev args_bytes last now t s of.0 after.0 h)
  authorizations-InBudget last t s (refuses o x reason now ∷ calls) of after h =
      let r = refuse_decision c o x reason now s in
      authorizations-InBudget last (authorized_by d (refuses o x reason now) r.1 ++ t) r.0 calls
        of.1 after (refused-After last t (refuses o x reason now) o x reason now s h)

  -- However many calls are made, in whatever order and whatever the disk does, while every call with a
  -- digest is about one grant and the clock does not go back between authorizations: the
  -- authorizations that are given out under the digest, from a ledger that has no usage for it, are
  -- at most as many as the grant's request budget, reserve at most the bytes of its byte budget, and
  -- in every window of the grant's number of seconds they are at most as many as its rate.
  pub run-InBudget :
      (s : Ledger) (calls : List Call)
      → All (IsOf d g) calls
      → AllAfter 0 calls
      → Map.get d s.usage ≡ none
      → let given = authorizations c d [] s calls in
        (length given ≤ g.max_requests)
        × (spent given ≤ g.max_bytes)
        × ((now : ℕ) → in_window (g.rate.window_s * 1000000000) now given ≤ g.rate.requests)
  unfolding live live_among in_window spent
  run-InBudget s calls of after e = authorizations-InBudget 0 [] s calls of after (
      rw e ((refl, refl, (λ x h. refl), λ x h. refl), (omega arith, omega arith, λ x. omega arith)))
