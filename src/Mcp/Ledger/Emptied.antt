-- ===== src/Mcp/Ledger/Emptied.antt =====
-- A ledger file that was emptied behind its anchor.
use microagency.Base.{true, false, none, some, [], arith, ◌<◌, ◌≡◌}
use microagency.Mcp.Ledger.{Ledger, Crypto, DecisionAnchor, stored}
use microagency.Mcp.Ledger.Load.{
  scanned, scan_failed, walk, load_decision_ledger, load_walked, anchors, verify_decision_ledger,
  verify_walked,
}
use microagency.Mcp.Ledger.Recovery.{restart}

module _ (c : Crypto) where
  -- When the file is there without a line although an anchor for one record or more is stored, the
  -- verification reports it broken, but a restart
  -- that opens it trusts it and starts with no charge at all;
  -- without the file the same restart refuses it.
  pub emptied-trusted :
      (s : Ledger) (a : DecisionAnchor)
      → s.path ≡ true
      → s.secrets ≡ true
      → s.anchor ≡ stored a
      → 0 < a.sequence
      → let t = load_decision_ledger c true (restart (record s { file = some [] })) in
        (t.load_err ≡ false)
        × (t.usage ≡ [])
        × ((verify_decision_ledger c true (record s { file = some [] })).intact ≡ false)
        × ((load_decision_ledger c true (restart (record s { file = none }))).load_err ≡ true)
  unfolding scanned scan_failed load_decision_ledger load_walked verify_decision_ledger
      verify_walked anchors walk
  emptied-trusted s a p k e pos = (ground arith, ground arith, ground arith, ground arith)
