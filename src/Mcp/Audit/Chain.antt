-- ===== src/Mcp/Audit/Chain.antt =====
-- internal/mcp/auditlog.go: what the head of a log that verifies says of its lines.
use microagency.Base.{
  true, false, List, [], arith, Text, text_eq_iff, is_empty, ◌+◌, ◌≡◌, ◌∷◌, if◌then◌else◌,
}
use microagency.Mcp.Audit.{
  Keys, AuditLine, FileLine, line, garbage, torn, AuditWalk, fail, chain_hash, check_signature,
  check_chained, check_audit_line,
}

-- The entries that are chained under a hash, the newest first.
pub data Chain {R : Type 0} (k : Keys R) : Text → List (Text × R) → Type 0 where
  begin : Chain k [] []
  link :
      {prev id : Text} {entry : R} {es : List (Text × R)}
      → Chain k prev es
      → Chain k (chain_hash k prev id entry) ((id, entry) ∷ es)

module _ {R : Type 0} where
  unfoldable pub push_line : List (Text × R) → FileLine R → List (Text × R)
  push_line es garbage = es
  push_line es torn = es
  push_line es (line l) = if is_empty l.hash then es else (l.run_id, l.entry) ∷ es

  -- The chained entries of a file, the newest first.
  unfoldable pub push_lines : List (Text × R) → List (FileLine R) → List (Text × R)
  unfolding push_line
  push_lines es [] = es
  push_lines es (l ∷ file) = push_lines (push_line es l) file

module _ {R : Type 0} (k : Keys R) where
  pub check-unchained :
      (w : AuditWalk) (l : AuditLine R)
      → (check_audit_line k w (line l)).v.intact ≡ true
      → is_empty l.hash ≡ true
      → (is_empty l.run_id ≡ false)
        × ((check_audit_line k w (line l)).prev ≡ w.prev)
        × ((check_audit_line k w (line l)).v.chained ≡ w.v.chained)
  unfolding check_audit_line fail
  check-unchained w l h e = ground arith

  signature_prev :
      (l : AuditLine R) (w : AuditWalk)
      → (check_signature k l w).v.intact ≡ true
      → ((check_signature k l w).prev ≡ l.hash) × ((check_signature k l w).v.chained ≡ w.v.chained)
  unfolding check_signature fail
  signature_prev l w h = ground arith

  chained_prev :
      (l : AuditLine R) (w : AuditWalk)
      → (check_chained k l w).v.intact ≡ true
      → (l.prev ≡ w.prev)
        × (chain_hash k l.prev l.run_id l.entry ≡ l.hash)
        × ((check_chained k l w).prev ≡ l.hash)
        × ((check_chained k l w).v.chained ≡ w.v.chained)
  unfolding check_chained fail
  chained_prev l w h = ground (
    arith,
    text_eq_iff l.prev w.prev,
    text_eq_iff (chain_hash k l.prev l.run_id l.entry) l.hash,
    signature_prev l w,
  )

  pub check-chained :
      (w : AuditWalk) (l : AuditLine R)
      → (check_audit_line k w (line l)).v.intact ≡ true
      → is_empty l.hash ≡ false
      → (is_empty l.run_id ≡ false)
        × (l.prev ≡ w.prev)
        × (chain_hash k l.prev l.run_id l.entry ≡ l.hash)
        × ((check_audit_line k w (line l)).prev ≡ l.hash)
        × ((check_audit_line k w (line l)).v.chained ≡ w.v.chained + 1)
  unfolding check_audit_line fail
  check-chained w l h e =
      let here : AuditWalk = record w {
        v = record w.v { lines = w.v.lines + 1; chained = w.v.chained + 1 };
        seen_chained = true;
      } in
      ground (arith, chained_prev l here)
