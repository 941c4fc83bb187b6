-- ===== src/Mcp/Ledger/Load.antt =====
-- internal/mcp/decisionledger.go: `loadDecisionLedger`, which trusts a ledger at start or not, and
-- `VerifyDecisionLedger`, which an operator calls.
use microagency.Base.{
  ℕ, Bool, true, false, not, Option, none, some, List, [], leb, Text, text_eq, ◌+◌, ◌&&◌, ◌||◌, ◌∷◌,
  ◌++◌, ◌==◌, if◌then◌else◌,
}
use microagency.Base.Map
use microagency.Base.Map.{Map}
use microagency.Mcp.Ledger.{
  Ledger, Crypto, Decision, authorized, refused, DecisionRecord, DecisionLine, DecisionAnchor,
  GrantUsage, FileLine, line, garbage, missing, stored, decision_hash,
}
use microagency.Mcp.Ledger.Authorize.{usage_of}

-- Why a walk over the file stops.
pub data Fault : Type 0 where
  malformed_chain no_signer bad_signature : Fault

-- The walk's position, and the usage that it has rebuilt.
pub record Walk : Type 0 where
  pub sequence : ℕ
  pub prev : Text
  pub usage : Map GrantUsage

abbrev pub start : Walk
start = record { sequence = 0; prev = []; usage = [] }

abbrev is_authorized : Decision → Bool
is_authorized authorized = true
is_authorized refused = false

unfoldable pub count_usage : DecisionRecord → Map GrantUsage → Map GrantUsage
count_usage entry usage =
    let u = usage_of (Map.get entry.grant_digest usage) in
    if is_authorized entry.decision && not (text_eq entry.grant_digest [])
    then Map.put entry.grant_digest
        (record {
          requests = u.requests + 1;
          bytes = u.bytes + entry.reserved_bytes;
          times = u.times ++ entry.timestamp ∷ [];
        })
        usage
    else usage

pub data Walked : Type 0 where
  done : Walk → Walked
  fault : Walk → Fault → Walked

pub record DecisionVerification : Type 0 where
  pub intact : Bool
  pub records : ℕ
  pub head : Text
  pub anchored : Bool
  pub error : Bool

abbrev broken : ℕ → Text → DecisionVerification
broken records head = record {
  intact = false;
  records = records;
  head = head;
  anchored = false;
  error = true;
}

-- Past a line that passes the tests.
abbrev pub advance : DecisionLine → Walk → Walk
advance l w = record { sequence = l.sequence; prev = l.hash; usage = count_usage l.entry w.usage }

module _ (c : Crypto) where
  -- The tests on one line: the chain, the signer, the signature.
  unfoldable pub check_line : Bool → Walk → DecisionLine → Option Fault
  check_line signer w l =
      if not (l.sequence == w.sequence + 1)
      then some malformed_chain
      else if not (text_eq l.prev w.prev)
      then some malformed_chain
      else if not (text_eq l.hash (decision_hash c w.prev l.sequence l.entry))
      then some malformed_chain
      else if not signer
      then some no_signer
      else if c.verify l.hash l.sig
      then none
      else some bad_signature

  unfoldable pub walk : Bool → Walk → List FileLine → Walked
  unfolding check_line count_usage
  walk signer w [] = done w
  walk signer w (garbage ∷ ls) = fault w malformed_chain
  walk signer w (line l ∷ ls) =
      let rest = walk signer (advance l w) ls in
      elim (check_line signer w l) [ some f ↦ fault w f | none ↦ rest ]

  -- The scanner's buffer, 4 MiB, does not hold the line. A line that is no JSON is not that long.
  unfoldable pub is_long : FileLine → Bool
  is_long (line l) = leb 4194304 (c.line_size l)
  is_long garbage = false

  -- The lines that the scanner gives, up to one that is too long.
  unfoldable pub scanned : List FileLine → List FileLine
  unfolding is_long
  scanned [] = []
  scanned (l ∷ ls) = let rest = scanned ls in if is_long l then [] else l ∷ rest

  -- `scanner.Err()`
  unfoldable pub scan_failed : List FileLine → Bool
  unfolding is_long
  scan_failed [] = false
  scan_failed (l ∷ ls) = is_long l || scan_failed ls

  -- A stored anchor that is signed and names this end of the chain.
  unfoldable pub anchors : DecisionAnchor → Walk → Bool
  anchors a w =
      c.verify (c.marshal_anchor a.sequence a.head) a.sig
      && (a.sequence == w.sequence && text_eq a.head w.prev)

  -- The anchor is read only if the walk found a record.
  unfoldable pub load_anchor : Ledger → Walk → Ledger
  unfolding anchors
  load_anchor s w =
      let loaded = record s { head = w.prev; sequence = w.sequence; usage = w.usage } in
      let refused = record loaded { load_err = true } in
      if w.sequence == 0
      then loaded
      else if not s.secrets
      then refused
      else elim s.anchor [ stored a ↦ if anchors a w then loaded else refused | _ ↦ refused ]

  -- Without a file, an anchor that is there or cannot be read is an error.
  unfoldable pub load_missing : Ledger → Ledger
  load_missing s =
      if s.secrets then elim s.anchor [ missing ↦ s | _ ↦ record s { load_err = true } ] else s

  -- `failed` says that the scanner stopped before the end.
  unfoldable pub load_walked : Ledger → Bool → Walked → Ledger
  unfolding load_anchor
  load_walked s failed (done w) = if failed then record s { load_err = true } else load_anchor s w
  load_walked s failed (fault w f) = record s { load_err = true }

  -- `opened` says that a file that is there can be opened; one that cannot is no error.
  unfoldable pub load_decision_ledger : Bool → Ledger → Ledger
  unfolding walk load_walked load_missing scanned scan_failed
  load_decision_ledger opened s = if not s.path then s else elim s.file [
    | none ↦ load_missing s
    | some ls ↦
        if not opened then s else load_walked s (scan_failed ls) (walk s.signer start (scanned ls))
  ]

  -- The walk found no fault: the anchor must be there, be signed, and agree.
  unfoldable pub verify_anchor : Ledger → Walk → DecisionVerification
  unfolding anchors
  verify_anchor s w = if not s.secrets then broken w.sequence w.prev else elim s.anchor [
    | stored a ↦
        if s.signer && anchors a w
        then record {
          intact = true;
          records = w.sequence;
          head = w.prev;
          anchored = true;
          error = false;
        }
        else broken w.sequence w.prev
    | _ ↦ broken w.sequence w.prev
  ]

  -- Without a file the ledger is intact only if no anchor is there.
  unfoldable pub verify_missing : Ledger → DecisionVerification
  verify_missing s =
      let empty : DecisionVerification = record {
        intact = true;
        records = 0;
        head = [];
        anchored = false;
        error = false;
      } in
      if s.secrets then elim s.anchor [ missing ↦ empty | _ ↦ broken 0 [] ] else empty

  unfoldable pub verify_walked : Ledger → Bool → Walked → DecisionVerification
  unfolding verify_anchor
  verify_walked s failed (done w) = if failed then broken w.sequence w.prev else verify_anchor s w
  verify_walked s failed (fault w f) = broken w.sequence w.prev

  unfoldable pub verify_decision_ledger : Bool → Ledger → DecisionVerification
  unfolding walk verify_walked verify_missing scanned scan_failed
  verify_decision_ledger opened s = elim s.file [
    | none ↦ verify_missing s
    | some ls ↦
        if not opened
        then broken 0 []
        else verify_walked s (scan_failed ls) (walk s.signer start (scanned ls))
  ]
