-- ===== src/Mcp/Ledger/Chain.antt =====
-- internal/mcp/decisionledger.go: a ledger that was written without a fault.
use microagency.Base.{
  ℕ, refl, ap, inl, inr, true, false, Option, none, some, List, [], arith, length, All, Text,
  text_eq_refl, text_eq_iff, ◌+◌, ◌<◌, ◌≡◌, ◌⊎◌, ◌∙◌, ◌∷◌, ◌++◌,
}
use microagency.Base.Map.{Map}
use microagency.Mcp.Grant.{EvaluatedGrant}
use microagency.Mcp.Ledger.{
  Ledger, Crypto, Outcome, DecisionRecord, DecisionAnchor, GrantUsage, FileLine, line, ok, lines_of,
  synced, append_decision_locked, next_line, decision_hash, stored,
}
use microagency.Mcp.Ledger.Authorize.{
  Refused, refuse_decision, refused_record, of_evaluated, charged, store_recent,
}
use microagency.Mcp.Ledger.Load.{
  scan_failed, Walk, start, done, count_usage, check_line, walk, load_decision_ledger, load_walked,
  anchors, verify_decision_ledger, verify_walked,
}
use microagency.Mcp.Ledger.Cases.{authorize_rule}
use microagency.Mcp.Ledger.Coverage.{extend, walk-append, walked, scanned-all}
use microagency.Mcp.Ledger.Budgets.{Call, authorizes, refuses, step, run}
use microagency.Mcp.Ledger.Recovery.{restart}

-- The signer works, and its signatures verify.
pub record Signs (c : Crypto) : Type 0 where
  pub signs : (m : Text) → (sig : Text) × (c.sign m ≡ some sig)
  pub verifies : (m sig : Text) → c.sign m ≡ some sig → c.verify m sig ≡ true

-- The end of the chain that memory holds.
abbrev pub at_head : Ledger → Map GrantUsage → Walk
at_head s usage = record { sequence = s.sequence; prev = s.head; usage = usage }

-- The anchor names the head, once there is a record.
abbrev Anchored : Crypto → Ledger → Type 0
Anchored c s =
    (s.sequence ≡ 0)
    ⊎ ((a : DecisionAnchor) × (s.anchor ≡ stored a)
        × (c.verify (c.marshal_anchor a.sequence a.head) a.sig ≡ true)
        × (a.sequence ≡ s.sequence)
        × (a.head ≡ s.head))

-- All that the ledger needs is configured, and file, memory and anchor agree.
pub record IsIntact (c : Crypto) (s : Ledger) : Type 0 where
  pub path : s.path ≡ true
  pub signer : s.signer ≡ true
  pub secrets : s.secrets ≡ true
  pub trusted : s.load_err ≡ false
  pub rebuilt : Map GrantUsage
  pub chain : walked c s ≡ done (at_head s rebuilt)
  pub anchored : Anchored c s

abbrev pub clean : Outcome
clean = record { append = synced; save = true }

module _ (c : Crypto) (laws : Signs c) where
  -- The ledger after a record was written, signed by the two signatures.
  abbrev appended : DecisionRecord → Ledger → Text → Text → Ledger
  appended entry s sig anchor_sig =
      let hash = decision_hash c s.head (s.sequence + 1) entry in
      record s {
        file = some (lines_of s.file ++ line (next_line c entry s sig) ∷ []);
        sequence = s.sequence + 1;
        head = hash;
        anchor = stored (record { sequence = s.sequence + 1; head = hash; sig = anchor_sig });
      }

  append-appended :
      (entry : DecisionRecord) (s : Ledger) (sig anchor_sig : Text)
      → IsIntact c s
      → c.sign (decision_hash c s.head (s.sequence + 1) entry) ≡ some sig
      → c.sign (c.marshal_anchor (s.sequence + 1) (decision_hash c s.head (s.sequence + 1) entry))
        ≡ some anchor_sig
      → append_decision_locked c clean entry s ≡ (appended entry s sig anchor_sig, ok)
  unfolding append_decision_locked
  append-appended entry s sig anchor_sig v e f =
      ground (arith, v.path, v.signer, v.secrets, v.trusted)

  next_line-extend :
      (entry : DecisionRecord) (s : Ledger) (sig : Text) (v : IsIntact c s)
      → c.sign (decision_hash c s.head (s.sequence + 1) entry) ≡ some sig
      → extend c s.signer (done (at_head s v.rebuilt)) (line (next_line c entry s sig))
        ≡ done (record {
          sequence = s.sequence + 1;
          prev = decision_hash c s.head (s.sequence + 1) entry;
          usage = count_usage entry v.rebuilt;
        })
  unfolding walk check_line
  next_line-extend entry s sig v e = ground (
    arith,
    v.signer,
    text_eq_refl s.head,
    text_eq_refl (decision_hash c s.head (s.sequence + 1) entry),
    laws.verifies (decision_hash c s.head (s.sequence + 1) entry) sig e,
  )

  appended-IsIntact :
      (entry : DecisionRecord) (s : Ledger) (sig anchor_sig : Text)
      → IsIntact c s
      → c.sign (decision_hash c s.head (s.sequence + 1) entry) ≡ some sig
      → c.sign (c.marshal_anchor (s.sequence + 1) (decision_hash c s.head (s.sequence + 1) entry))
        ≡ some anchor_sig
      → IsIntact c (appended entry s sig anchor_sig)
  unfolding lines_of
  appended-IsIntact entry s sig anchor_sig v e f = record {
    path = v.path;
    signer = v.signer;
    secrets = v.secrets;
    trusted = v.trusted;
    rebuilt = count_usage entry v.rebuilt;
    chain =
        walk-append c s.signer start (lines_of s.file) (line (next_line c entry s sig))
        ∙ (ap (λ r. extend c s.signer r (line (next_line c entry s sig))) v.chain
            ∙ next_line-extend entry s sig v e);
    anchored = inr (
      record {
        sequence = s.sequence + 1;
        head = decision_hash c s.head (s.sequence + 1) entry;
        sig = anchor_sig;
      },
      refl,
      laws.verifies _ anchor_sig f,
      refl,
      refl,
    );
  }

  -- One record more, and all still agrees.
  abbrev Grown : Ledger → Ledger → Type 0
  Grown s t = IsIntact c t × (t.sequence ≡ s.sequence + 1)

  -- What the usage is does not matter here.
  IsIntact-usage :
      (s : Ledger) (m : Map GrantUsage) → IsIntact c s → IsIntact c (record s { usage = m })
  IsIntact-usage s m v = record {
    path = v.path;
    signer = v.signer;
    secrets = v.secrets;
    trusted = v.trusted;
    rebuilt = v.rebuilt;
    chain = v.chain;
    anchored = v.anchored;
  }

  append-ok :
      (entry : DecisionRecord) (s : Ledger)
      → IsIntact c s
      → (t : Ledger) × (append_decision_locked c clean entry s ≡ (t, ok)) × Grown s t
  append-ok entry s v =
      let hash = decision_hash c s.head (s.sequence + 1) entry in
      let (sig, e) = laws.signs hash in
      let (anchor_sig, f) = laws.signs (c.marshal_anchor (s.sequence + 1) hash) in
      (
        appended entry s sig anchor_sig,
        append-appended entry s sig anchor_sig v e f,
        (appended-IsIntact entry s sig anchor_sig v e f, refl),
      )

  refuse-Grown :
      (r : Refused) (reason : Text) (now : ℕ) (s : Ledger)
      → IsIntact c s
      → Grown s (refuse_decision c clean r reason now s).0
  unfolding refuse_decision
  refuse-Grown r reason now s v =
      let (t, e, grown) = append-ok (refused_record r reason now) s v in
      rw (e, refuse_decision) grown

  charged-Grown :
      (ev : EvaluatedGrant) (reserved now : ℕ) (u : GrantUsage) (entry : DecisionRecord)
      (s : Ledger)
      → IsIntact c s
      → Grown s (charged ev reserved now u (append_decision_locked c clean entry s)).0
  charged-Grown ev reserved now u entry s v =
      let (t, e, (w, f)) = append-ok entry s v in rw e (IsIntact-usage t _ w, f)

  -- The calls that the disk serves.
  abbrev pub IsClean : Call → Type 0
  IsClean (authorizes o ev args_bytes now) = o ≡ clean
  IsClean (refuses o r reason now) = o ≡ clean

  step-Grown : (s : Ledger) (call : Call) → IsClean call → IsIntact c s → Grown s (step c s call)
  unfolding step
  step-Grown s (refuses o r reason now) e v = rw e (refuse-Grown r reason now s v)
  step-Grown s (authorizes o ev args_bytes now) e v =
      let pruned = store_recent ev.digest now ev.grant.rate s.usage in
      let late = IsIntact-usage s pruned v in
      rw e (
        authorize_rule c (λ r. Grown s r.0) clean ev args_bytes now s
          (λ reason. refuse-Grown (of_evaluated ev) reason now s v)
          (λ reason. refuse-Grown (of_evaluated ev) reason now (record s { usage = pruned }) late)
          (λ _. charged-Grown ev _ now _ _ (record s { usage = pruned }) late))

  run-IsIntact :
      (s : Ledger) (calls : List Call)
      → All IsClean calls
      → IsIntact c s
      → IsIntact c (run c s calls) × ((run c s calls).sequence ≡ s.sequence + length calls)
  unfolding run
  run-IsIntact s [] h v = (v, omega arith)
  run-IsIntact s (call ∷ calls) h v =
      let (w, e) = step-Grown s call h.0 v in
      let (x, f) = run-IsIntact (step c s call) calls h.1 w in (x, omega (arith, e, f))

  anchors-head :
      (s : Ledger) (m : Map GrantUsage)
      → Anchored c s
      → 0 < s.sequence
      → (a : DecisionAnchor) × (s.anchor ≡ stored a) × (anchors c a (at_head s m) ≡ true)
  unfolding anchors
  anchors-head s m (inl z) pos = absurd (omega arith)
  anchors-head s m (inr (a, e, signed, same, named)) pos =
      (a, e, ground (arith, text_eq_iff a.head s.head))

  verify_walked-head :
      (s : Ledger) (v : IsIntact c s)
      → 0 < s.sequence
      → verify_walked c s false (done (at_head s v.rebuilt)) ≡ record {
        intact = true;
        records = s.sequence;
        head = s.head;
        anchored = true;
        error = false;
      }
  unfolding verify_walked
  verify_walked-head s v pos =
      let (a, e, named) = anchors-head s v.rebuilt v.anchored pos in
      ground (arith, v.secrets, v.signer, e, named)

  load_walked-head :
      (s : Ledger) (v : IsIntact c s)
      → 0 < s.sequence
      → load_walked c (restart s) false (done (at_head s v.rebuilt))
        ≡ record s { usage = v.rebuilt; load_err = false }
  unfolding load_walked
  load_walked-head s v pos =
      let (a, e, named) = anchors-head s v.rebuilt v.anchored pos in
      ground (arith, v.secrets, v.signer, e, named)

  -- What an intact ledger with a record answers to a verification, and what it loads as.
  intact-verifies :
      (s : Ledger) (file : Option (List FileLine))
      → s.file ≡ file
      → (v : IsIntact c s) → 0 < s.sequence
      → scan_failed c (lines_of file) ≡ false
      → (verify_decision_ledger c true s ≡ record {
        intact = true;
        records = s.sequence;
        head = s.head;
        anchored = true;
        error = false;
      })
        × (load_decision_ledger c true (restart s)
            ≡ record s { usage = v.rebuilt; load_err = false })
  unfolding verify_decision_ledger load_decision_ledger lines_of walk
  intact-verifies s none e v pos short = absurd (ground (arith, v.chain))
  intact-verifies s (some ls) e v pos short = (
    ground (arith, v.chain, short, scanned-all c ls short, verify_walked-head s v pos),
    ground (arith, v.chain, v.path, short, scanned-all c ls short, load_walked-head s v pos),
  )

  -- From an intact ledger, after one or more calls during which the disk serves every write, and if
  -- every line of the file fits the buffer of the scanner, each call has left one record, the
  -- operator's verification finds the chain intact and anchored with as many records, and a restart
  -- trusts the file and takes up the same sequence number and head; both can open the file.
  pub run-verifies :
      (s : Ledger) (call : Call) (calls : List Call)
      → All IsClean (call ∷ calls)
      → IsIntact c s
      → let t = run c s (call ∷ calls) in
        scan_failed c (lines_of t.file) ≡ false
        → let r = load_decision_ledger c true (restart t) in
          (verify_decision_ledger c true t ≡ record {
            intact = true;
            records = s.sequence + (length calls + 1);
            head = t.head;
            anchored = true;
            error = false;
          })
          × (r.load_err ≡ false)
          × (r.sequence ≡ s.sequence + (length calls + 1))
          × (r.head ≡ t.head)
  run-verifies s call calls h v short =
      let (w, e) = run-IsIntact s (call ∷ calls) h v in
      let t = run c s (call ∷ calls) in
      let (a, b) = intact-verifies t t.file refl w (omega (arith, e)) short in
      let n : t.sequence ≡ s.sequence + (length calls + 1) = omega (arith, e) in
      (
        a
            ∙ ap
                (λ k. record {
                  intact = true;
                  records = k;
                  head = t.head;
                  anchored = true;
                  error = false;
                })
                n,
        ap (λ q. q.load_err) b,
        ap (λ q. q.sequence) b ∙ n,
        ap (λ q. q.head) b,
      )
