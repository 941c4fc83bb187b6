-- ===== src/Examples/LedgerRuns.antt =====
-- The decision ledger with a toy hash, signer and encoding, one grant, and three calls.
use microagency.Base.{
  ℕ, refl, inl, true, false, none, some, List, [], arith, length, keep, codes, text_eq, text_eq_iff,
  ◌+◌, ◌*◌, ◌≤◌, ◌≡◌, ◌≢◌, ◌∷◌,
}
use microagency.Base.Map
use microagency.Mcp.Grant.{OperationGrant, EvaluatedGrant}
use microagency.Mcp.Ledger.{Ledger, Crypto, lines_of, torn, missing, stored, append_decision_locked}
use microagency.Mcp.Ledger.Authorize.{authorize_decision}
use microagency.Mcp.Ledger.Load.{walk, scan_failed, load_decision_ledger, verify_decision_ledger}
use microagency.Mcp.Ledger.Budgets.{Call, authorizes, run}
use microagency.Mcp.Ledger.Windows.{spent, in_window}
use microagency.Mcp.Ledger.Spent.{authorizations, run-InBudget}
use microagency.Mcp.Ledger.Coverage.{Covers}
use microagency.Mcp.Ledger.Recovery.{restart, restart-Covers}
use microagency.Mcp.Ledger.Chain.{Signs, IsIntact, clean, run-verifies}
use microagency.Mcp.Ledger.Emptied.{emptied-trusted}

abbrev toy : Crypto
toy = record {
  sha256 = λ t. t;
  marshal_decision = λ n e. n ∷ e.grant_digest;
  marshal_anchor = λ n h. n ∷ h;
  line_size = λ l. length l.hash + 500;
  sign = λ m. some m;
  verify = text_eq;
}

abbrev grant : OperationGrant
grant = record {
  version = codes "1";
  id = codes "g1";
  connection = codes "github";
  tool = codes "list_issues";
  effect = codes "read";
  principal = codes "https://idp#ann";
  campaign = codes "triage";
  expires_at = [];
  arguments = [];
  resources = [];
  url_targets = [];
  max_requests = 2;
  max_bytes = 100;
  max_response_bytes = 30;
  rate = record { requests = 5; window_s = 60 };
  metadata = [];
  allow_shared = false;
  high_assurance = true;
}

abbrev evaluated : EvaluatedGrant
evaluated = record {
  grant = grant;
  digest = codes "d1";
  resource_ids = [];
  shared_writable_ids = [];
}

abbrev empty_ledger : Ledger
empty_ledger = record {
  path = true;
  signer = true;
  secrets = true;
  usage = [];
  sequence = 0;
  head = [];
  load_err = false;
  file = none;
  anchor = missing;
}

abbrev calls : List Call
calls =
    authorizes clean evaluated 10 1000
    ∷ authorizes (record { append = torn; save = true }) evaluated 10 2000
    ∷ authorizes clean evaluated 10 3000
    ∷ []

toy-Signs : Signs toy
toy-Signs = record {
  signs = λ m. (m, refl);
  verifies = λ m sig e. ground (arith, text_eq_iff m sig);
}

empty-IsIntact : IsIntact toy empty_ledger
unfolding walk lines_of
empty-IsIntact = record {
  path = refl;
  signer = refl;
  secrets = refl;
  trusted = refl;
  rebuilt = [];
  chain = refl;
  anchored = inl refl;
}

run-InBudget_example :
    let given = authorizations toy (codes "d1") [] empty_ledger calls in
    (length given ≤ grant.max_requests)
    × (spent given ≤ grant.max_bytes)
    × ((now : ℕ) → in_window (grant.rate.window_s * 1000000000) now given ≤ grant.rate.requests)
unfolding Map.get
run-InBudget_example =
    run-InBudget toy (codes "d1") grant empty_ledger calls
      ((λ e. refl), ((λ e. refl), ((λ e. refl), tt)))
      (omega arith, (omega arith, (omega arith, tt))) refl

abbrev clean_calls : List Call
clean_calls = authorizes clean evaluated 10 1000 ∷ authorizes clean evaluated 10 3000 ∷ []

digest-HasDigest : codes "d1" ≢ []
digest-HasDigest e = ground (arith, e)

loads :
    ((load_decision_ledger toy true (restart (run toy empty_ledger clean_calls))).load_err ≡ false)
    × ((run toy empty_ledger clean_calls).path ≡ true)
unfolding run load_decision_ledger authorize_decision Map.get keep append_decision_locked Map.put
    text_eq
loads = (refl, refl)

restart-Covers_example :
    Covers
      (codes "d1")
      (run toy empty_ledger clean_calls).usage
      (load_decision_ledger toy true (restart (run toy empty_ledger clean_calls))).usage
restart-Covers_example =
    restart-Covers toy (codes "d1") empty_ledger clean_calls (unfold walk lines_of in omega arith)
      (digest-HasDigest, (digest-HasDigest, tt)) loads.1 loads.0

clean_calls-fit : scan_failed toy (lines_of (run toy empty_ledger clean_calls).file) ≡ false
unfolding run scan_failed lines_of authorize_decision Map.get keep append_decision_locked Map.put
    text_eq
clean_calls-fit = refl

run-verifies_example :
    (verify_decision_ledger toy true (run toy empty_ledger clean_calls) ≡ record {
      intact = true;
      records = 2;
      head = (run toy empty_ledger clean_calls).head;
      anchored = true;
      error = false;
    })
    × ((load_decision_ledger toy true (restart (run toy empty_ledger clean_calls))).load_err
        ≡ false)
    × ((load_decision_ledger toy true (restart (run toy empty_ledger clean_calls))).sequence ≡ 2)
    × ((load_decision_ledger toy true (restart (run toy empty_ledger clean_calls))).head
        ≡ (run toy empty_ledger clean_calls).head)
run-verifies_example =
    run-verifies toy toy-Signs empty_ledger (authorizes clean evaluated 10 1000)
      (authorizes clean evaluated 10 3000 ∷ []) (refl, (refl, tt)) empty-IsIntact clean_calls-fit

abbrev anchored_ledger : Ledger
anchored_ledger = record empty_ledger {
  anchor = stored (record { sequence = 7; head = codes "h7"; sig = codes "s7" });
}

emptied-trusted_example :
    let t = load_decision_ledger toy true (restart (record anchored_ledger { file = some [] })) in
    (t.load_err ≡ false)
    × (t.usage ≡ [])
    × ((verify_decision_ledger toy true (record anchored_ledger { file = some [] })).intact ≡ false)
    × ((load_decision_ledger toy true (restart (record anchored_ledger { file = none }))).load_err
        ≡ true)
emptied-trusted_example =
    emptied-trusted toy anchored_ledger
      (record { sequence = 7; head = codes "h7"; sig = codes "s7" }) refl refl refl (omega arith)
