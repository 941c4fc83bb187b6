-- ===== src/Mcp/Audit/Restart.antt =====
-- internal/mcp/auditlog.go: what a start of the server reads from a log that verifies.
use microagency.Base.{
  refl, sym, ap, inl, inr, true, false, List, [], arith, Bool-cases, is_empty, ◌≡◌, ◌∙◌, ◌∷◌,
}
use microagency.Mcp.Audit.{
  scanned, scan_failed, Keys, FileLine, line, garbage, torn, AuditState, AuditWalk, walk_start,
  load_line, load_lines, load_audit, check_audit_line, walk_audit,
}
use microagency.Mcp.Audit.Chain.{check-unchained, check-chained}
use microagency.Mcp.Audit.Heads.{walk_audit-cons, garbage_broken}

-- The server goes on where the walk stands.
abbrev pub Follows : AuditState → AuditWalk → Type 0
Follows s w = (s.audit_hash ≡ w.prev) × (s.audit_chained ≡ w.v.chained)

module _ {R : Type 0} (k : Keys R) where
  load_line-Follows :
      (w : AuditWalk) (s : AuditState) (l : FileLine R)
      → (check_audit_line k w l).v.intact ≡ true
      → Follows s w
      → Follows (load_line s l) (check_audit_line k w l)
  unfolding load_line
  load_line-Follows w s garbage h f = absurd (ground (arith, (garbage_broken k w).0))
  load_line-Follows w s torn h f = absurd (ground (arith, (garbage_broken k w).1))
  load_line-Follows w s (line l) h f = elim (Bool-cases (is_empty l.hash)) [
    | inl e ↦ ground (arith, e, f, check-unchained k w l h e)
    | inr e ↦ ground (arith, e, f, check-chained k w l h e)
  ]

  load_lines-Follows :
      (w : AuditWalk) (s : AuditState) (file : List (FileLine R))
      → (walk_audit k w file).v.intact ≡ true
      → Follows s w
      → Follows (load_lines s file) (walk_audit k w file)
  unfolding load_lines walk_audit
  load_lines-Follows w s [] h f = f
  load_lines-Follows w s (l ∷ file) h f =
      let g = walk_audit-cons k w l file h in
      let i = ap (λ (x : AuditWalk). x.v.intact) (sym g.1) ∙ h in
      let r =
        load_lines-Follows (check_audit_line k w l) (load_line s l) file i
          (load_line-Follows w s l g.0 f) in
      (
        r.0 ∙ ap (λ (x : AuditWalk). x.prev) (sym g.1),
        r.1 ∙ ap (λ (x : AuditWalk). x.v.chained) (sym g.1),
      )

  -- Nothing is cut off a file whose lines fit.
  pub scanned-all : (file : List (FileLine R)) → scan_failed k file ≡ false → scanned k file ≡ file
  unfolding scanned scan_failed
  scanned-all [] h = refl
  scanned-all (l ∷ file) h = ground (arith, scanned-all file)

  -- A start resumes at the head of a log that verifies.
  pub load_audit-Follows :
      (file : List (FileLine R))
      → (walk_audit k walk_start file).v.intact ≡ true
      → scan_failed k file ≡ false
      → Follows (load_audit k true file) (walk_audit k walk_start file)
  unfolding load_audit
  load_audit-Follows file h short =
      let s : AuditState = record { audit_hash = []; audit_chained = 0; audit_anchored_at = 0 } in
      rw (scanned-all file short) (load_lines-Follows walk_start s file h (refl, refl))
