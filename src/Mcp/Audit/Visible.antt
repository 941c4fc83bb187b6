-- ===== src/Mcp/Audit/Visible.antt =====
-- internal/mcp/auditlog.go: which failed writes a verification finds.
use microagency.Base.{Bool, true, false, ◌≡◌}
use microagency.Mcp.Audit.{Keys, scan_failed}
use microagency.Mcp.Audit.Appends.{is_broken}
use microagency.Mcp.Audit.Intact.{Log}

module _ {R : Type 0} (k : Keys R) where
  -- Whether the file is short, and whether it is broken at least as surely as was asked.
  abbrev Spoiled : Bool → Log R → Type 0
  Spoiled b g = (scan_failed k g.file ≡ false) × (b ≡ true → is_broken g.file ≡ true)
