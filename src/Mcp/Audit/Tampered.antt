-- ===== src/Mcp/Audit/Tampered.antt =====
-- internal/mcp/auditlog.go: two logs that verify and at whose head a server would go on alike.
use microagency.Base.{
  sym, ap, Bool, true, false, some, List, [], arith, Text, is_empty, ◌≡◌, ◌⊎◌, ◌∙◌,
}
use microagency.Mcp.Audit.{
  Keys, FileLine, AuditVerification, walk_start, walk_audit, scan_failed, load_audit,
  verify_audit_log,
}
use microagency.Mcp.Audit.Chain.{push_lines}
use microagency.Mcp.Audit.Heads.{IsPrintable, Collision, hashed, walk_audit-head}
use microagency.Mcp.Audit.Restart.{scanned-all, load_audit-Follows}

-- No error, and intact.
abbrev pub Verified : AuditVerification × Bool → Type 0
Verified (v, failed) = (v.intact ≡ true) × (failed ≡ false)

module _ {R : Type 0} (k : Keys R) where
  pub Verified-walk :
      (file : List (FileLine R))
      → Verified (verify_audit_log k true (some file))
      → ((walk_audit k walk_start file).v.intact ≡ true) × (scan_failed k file ≡ false)
  unfolding verify_audit_log
  Verified-walk file h =
      let short : scan_failed k file ≡ false = ground (arith, h) in
      (
        ap (λ ls. (walk_audit k walk_start ls).v.intact) (sym (scanned-all k file short)) ∙ h.0,
        short,
      )

module _ {R : Type 0} (k : Keys R) (digest-some : (s : Text) → is_empty (k.digest s) ≡ false)
    (canonical-IsPrintable : (i : Text) (r : R) → IsPrintable (k.canonical i r)) where
  -- If two files verify, and a server that starts on either would go on from the same hash, then either
  -- the bytes that are hashed for their chained entries, the JSON of each id and record, are the same
  -- in the same order, or two different texts with one hash are found. The hash is never empty, and
  -- the JSON of an entry has no byte 0.
  pub verify-head :
      (f g : List (FileLine R))
      → Verified (verify_audit_log k true (some f))
      → Verified (verify_audit_log k true (some g))
      → (load_audit k true f).audit_hash ≡ (load_audit k true g).audit_hash
      → Collision k ⊎ (hashed k (push_lines [] f) ≡ hashed k (push_lines [] g))
  verify-head f g hf hg e =
      let (vf, sf) = Verified-walk k f hf in
      let (vg, sg) = Verified-walk k g hg in
      walk_audit-head k digest-some canonical-IsPrintable f g vf vg
        (sym (load_audit-Follows k f vf sf).0 ∙ (e ∙ (load_audit-Follows k g vg sg).0))
