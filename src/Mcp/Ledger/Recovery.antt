-- ===== src/Mcp/Ledger/Recovery.antt =====
-- internal/mcp/decisionledger.go: what a restart makes of the file.
use microagency.Base.{
  ℕ, refl, sym, ap, inl, inr, Bool, true, false, Option, none, some, List, [], arith, Bool-cases,
  Option-cases, All, Text, text_eq_iff, ◌+◌, ◌≡◌, ◌≢◌, ◌∙◌, ◌∷◌, ◌++◌,
}
use mathlib.Core.Path.{subst}
use microagency.Base.Map
use microagency.Base.Map.{Map, get-put}
use microagency.Mcp.Grant.{RateGrant, EvaluatedGrant}
use microagency.Mcp.Ledger.{
  Ledger, Crypto, Outcome, DecisionRecord, DecisionLine, GrantUsage, FileLine, line, Result, ok,
  err, lines_of, append_line, synced, append_decision_locked, next_line, write_line,
}
use microagency.Mcp.Ledger.Authorize.{
  Refused, usage_of, recent, store_recent, charge, refuse_decision, refused_record,
  authorized_record, of_evaluated, charged,
}
use microagency.Mcp.Ledger.Load.{
  start, Walked, done, fault, count_usage, walk, load_decision_ledger, load_walked, scanned,
  scan_failed,
}
use microagency.Mcp.Ledger.Cases.{append_cases, authorize_rule}
use microagency.Mcp.Ledger.Coverage.{
  Covers, CoveredBy, extend, walk-append, walked, walked-write_line, append-CoveredBy, scanned-all,
}
use microagency.Mcp.Ledger.Budgets.{
  usage-append, Result-cases, Call, authorizes, refuses, step, run,
}

module _ (c : Crypto) where
  write_line-synced :
      (o : Outcome) (l : DecisionLine) (s : Ledger)
      → (write_line c o l s).1 ≡ ok
      → o.append ≡ synced
  unfolding write_line
  write_line-synced o l s h = ground arith

  counted-extend :
      (d : Text) (small big : Map GrantUsage) (signer : Bool) (l : DecisionLine) (r : Walked)
      → ((usage : Map GrantUsage) → Covers d small usage → Covers d big (count_usage l.entry usage))
      → CoveredBy d small r
      → CoveredBy d big (extend c signer r (line l))
  unfolding walk
  counted-extend d small big signer l (fault w f) counted h = tt
  counted-extend d small big signer l (done w) counted h = ground (arith, counted w.usage h)

  -- A written authorization is in the file, so a charge for it is covered too.
  charged-CoveredBy :
      (d : Text) (small big : Map GrantUsage) (o : Outcome) (entry : DecisionRecord) (s : Ledger)
      → ((usage : Map GrantUsage) → Covers d small usage → Covers d big (count_usage entry usage))
      → CoveredBy d small (walked c s)
      → (append_decision_locked c o entry s).1 ≡ ok
      → CoveredBy d big (walked c (append_decision_locked c o entry s).0)
  charged-CoveredBy d small big o entry s counted h =
      append_cases c (λ r. r.1 ≡ ok → CoveredBy d big (walked c r.0)) o entry s (λ e f. absurd (cc))
        λ sig _ good. rw (walked-write_line c o (next_line c entry s sig) s) (
          rw (write_line-synced o (next_line c entry s sig) s good) (
            unfold append_line in
            rw walk-append
              (counted-extend d small big s.signer (next_line c entry s sig) _ counted h)))

store_recent-same :
    (d e : Text) (now : ℕ) (rate : RateGrant) (usage : Map GrantUsage)
    → Covers d (store_recent e now rate usage) usage
unfolding store_recent
store_recent-same d e now rate usage = elim (Option-cases (Map.get e usage)) [
  | inl n ↦ rw (n, store_recent) (omega arith)
  | inr (u, s) ↦
      rw (s, store_recent)
        (rw (get-put e d (record u { times = recent now rate u.times }) usage)
          (ground (arith, text_eq_iff e d)))
]

-- Charging an authorization and counting its record keep the charges covered.
charge-Covers :
    (d : Text) (ev : EvaluatedGrant) (args_bytes now : ℕ) (usage big : Map GrantUsage)
    → ev.digest ≢ []
    → Covers d usage big
    → Covers d
        (Map.put ev.digest
          (charge ev
            (args_bytes + ev.grant.max_response_bytes)
            now
            (usage_of (Map.get ev.digest usage)))
          (store_recent ev.digest now ev.grant.rate usage))
        (count_usage (authorized_record ev args_bytes now) big)
unfolding count_usage authorized_record charge
charge-Covers d ev args_bytes now usage big ne h = ground (
  arith,
  text_eq_iff ev.digest d,
  text_eq_iff ev.digest [],
  store_recent-same d ev.digest now ev.grant.rate usage,
  get-put ev.digest d
      (charge ev (args_bytes + ev.grant.max_response_bytes) now
        (usage_of (Map.get ev.digest usage)))
      (store_recent ev.digest now ev.grant.rate usage),
  get-put ev.digest d
      (record {
        requests = (usage_of (Map.get ev.digest big)).requests + 1;
        bytes =
            (usage_of (Map.get ev.digest big)).bytes + (args_bytes + ev.grant.max_response_bytes);
        times = (usage_of (Map.get ev.digest big)).times ++ now ∷ [];
      })
      big,
)

-- The calls carry a digest, as every digest of a grant is.
abbrev pub HasDigest : Call → Type 0
HasDigest (authorizes o ev args_bytes now) = ev.digest ≢ []
HasDigest (refuses o r reason now) = Unit {0}

module _ (c : Crypto) (d : Text) where
  -- The usage that memory holds is covered by what the file would rebuild.
  abbrev pub IsCovered : Ledger → Type 0
  IsCovered s = CoveredBy d s.usage (walked c s)

  refuse-append :
      (o : Outcome) (r : Refused) (reason : Text) (now : ℕ) (s : Ledger)
      → (refuse_decision c o r reason now s).0
        ≡ (append_decision_locked c o (refused_record r reason now) s).0
  unfolding refuse_decision
  refuse-append o r reason now s = ground arith

  refuse-IsCovered :
      (o : Outcome) (r : Refused) (reason : Text) (now : ℕ) (s : Ledger)
      → IsCovered s
      → IsCovered (refuse_decision c o r reason now s).0
  refuse-IsCovered o r reason now s h = rw (refuse-append o r reason now s) (
      rw (usage-append c o (refused_record r reason now) s)
        (append-CoveredBy c d s.usage o (refused_record r reason now) s h))

  CoveredBy-mono :
      (small big : Map GrantUsage) (r : Walked)
      → Covers d small big
      → CoveredBy d big r
      → CoveredBy d small r
  CoveredBy-mono small big (fault w f) h k = tt
  CoveredBy-mono small big (done w) h k = omega arith

  charged-IsCovered :
      (o : Outcome) (ev : EvaluatedGrant) (args_bytes now : ℕ) (s : Ledger)
      → ev.digest ≢ []
      → IsCovered s
      → let u = usage_of (Map.get ev.digest s.usage) in
        let pruned = record s { usage = store_recent ev.digest now ev.grant.rate s.usage } in
        IsCovered
          (charged ev
            (args_bytes + ev.grant.max_response_bytes)
            now
            u
            (append_decision_locked c o (authorized_record ev args_bytes now) pruned)).0
  charged-IsCovered o ev args_bytes now s ne h =
      elim (Result-cases (append_decision_locked c o entry pruned)) [
        | inl (t, e) ↦ rw e (
            subst (λ m. CoveredBy d (Map.put ev.digest added m) (walked c t)) (same t ok e)
              (subst (λ q. CoveredBy d (Map.put ev.digest added pruned.usage) (walked c q))
                (ap (λ (q : Ledger × Result). q.0) e)
                (charged-CoveredBy c d s.usage (Map.put ev.digest added pruned.usage) o entry pruned
                  (λ usage k. charge-Covers d ev args_bytes now s.usage usage ne k) h
                  (ap (λ (q : Ledger × Result). q.1) e))))
        | inr (t, f, e) ↦ rw e (
            subst (λ m. CoveredBy d m (walked c t)) (same t (err f) e)
              (subst (λ q. CoveredBy d pruned.usage (walked c q))
                (ap (λ (q : Ledger × Result). q.0) e)
                (append-CoveredBy c d pruned.usage o entry pruned (
                  CoveredBy-mono pruned.usage s.usage (walked c s)
                    (store_recent-same d ev.digest now ev.grant.rate s.usage) h))))
      ]
    where
      entry : DecisionRecord
      entry = authorized_record ev args_bytes now

      pruned : Ledger
      pruned = record s { usage = store_recent ev.digest now ev.grant.rate s.usage }

      added : GrantUsage
      added =
          charge ev (args_bytes + ev.grant.max_response_bytes) now
            (usage_of (Map.get ev.digest s.usage))

      same :
          (t : Ledger) (r : Result)
          → append_decision_locked c o entry pruned ≡ (t, r)
          → pruned.usage ≡ t.usage
      same t r e = sym (usage-append c o entry pruned) ∙ ap (λ (q : Ledger × Result). q.0.usage) e

  step-IsCovered :
      (s : Ledger) (call : Call) → HasDigest call → IsCovered s → IsCovered (step c s call)
  unfolding step
  step-IsCovered s (refuses o r reason now) has h = refuse-IsCovered o r reason now s h
  step-IsCovered s (authorizes o ev args_bytes now) has h =
      authorize_rule c (λ r. IsCovered r.0) o ev args_bytes now s
        (λ reason. refuse-IsCovered o (of_evaluated ev) reason now s h)
        (λ reason.
          refuse-IsCovered o (of_evaluated ev) reason now
            (record s { usage = store_recent ev.digest now ev.grant.rate s.usage })
            (CoveredBy-mono (store_recent ev.digest now ev.grant.rate s.usage) s.usage (walked c s)
              (store_recent-same d ev.digest now ev.grant.rate s.usage) h))
        (λ _. charged-IsCovered o ev args_bytes now s has h)

  run-IsCovered :
      (s : Ledger) (calls : List Call)
      → All HasDigest calls
      → IsCovered s
      → IsCovered (run c s calls)
  unfolding run
  run-IsCovered s [] has h = h
  run-IsCovered s (call ∷ calls) has h =
      run-IsCovered (step c s call) calls has.1 (step-IsCovered s call has.0 h)

-- The gateway starts again: what memory held is gone.
abbrev pub restart : Ledger → Ledger
restart s = record s { usage = []; sequence = 0; head = []; load_err = false }

module _ (c : Crypto) where
  load_walked-Covers :
      (d : Text) (usage : Map GrantUsage) (s : Ledger) (r : Walked)
      → CoveredBy d usage r
      → (load_walked c s false r).load_err ≡ false
      → Covers d usage (load_walked c s false r).usage
  unfolding load_walked
  load_walked-Covers d usage s (done w) h trusted = ground arith
  load_walked-Covers d usage s (fault w f) h trusted = absurd (cc)

  load_failed : (s : Ledger) (r : Walked) → (load_walked c s true r).load_err ≡ true
  unfolding load_walked
  load_failed s (done w) = refl
  load_failed s (fault w f) = refl

  load-Covers :
      (d : Text) (usage : Map GrantUsage) (s : Ledger) (file : Option (List FileLine))
      → s.file ≡ file
      → s.path ≡ true
      → s.usage ≡ []
      → CoveredBy d usage (walk c s.signer start (lines_of file))
      → (load_decision_ledger c true s).load_err ≡ false
      → Covers d usage (load_decision_ledger c true s).usage
  unfolding load_decision_ledger lines_of walk
  load-Covers d usage s none e p n h trusted = ground arith
  load-Covers d usage s (some ls) e p n h trusted = elim (Bool-cases (scan_failed c ls)) [
    | inl f ↦
        absurd
          (ground (arith, e, p, f, trusted, load_failed s (walk c s.signer start (scanned c ls))))
    | inr f ↦ ground (
      arith,
      e,
      p,
      f,
      trusted,
      scanned-all c ls f,
      load_walked-Covers d usage s (walk c s.signer start ls) h,
    )
  ]

  -- Whatever the disk does during the calls: if the gateway then starts again, can open the file that
  -- is there, and trusts what it finds, it counts at least the requests and bytes that memory held
  -- under each digest, so such a restart gives no request and no byte back. The calls start from a
  -- ledger whose file accounts for its usage.
  pub restart-Covers :
      (d : Text) (s : Ledger) (calls : List Call)
      → let t = run c s calls in
        IsCovered c d s
        → All HasDigest calls
        → t.path ≡ true
        → (load_decision_ledger c true (restart t)).load_err ≡ false
        → Covers d t.usage (load_decision_ledger c true (restart t)).usage
  restart-Covers d s calls h has p trusted =
      let t = run c s calls in
      load-Covers d t.usage (restart t) t.file refl p refl (run-IsCovered c d s calls has h) trusted
