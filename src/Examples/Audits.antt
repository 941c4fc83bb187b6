-- ===== src/Examples/Audits.antt =====
-- Audit logs of two entries, with a toy hash that writes a byte in front.
use microagency.Base.{
  ℕ, suc, refl, true, some, List, [], arith, length, drop, Text, codes, text_eq, ◌+◌, ◌≡◌, ◌⊎◌, ◌∷◌,
}
use microagency.Mcp.Audit.{
  Keys, AuditLine, FileLine, line, whole, untouched, AuditState, next_audit_line, chain_hash,
  check_signature, check_chained, check_audit_line, load_audit, verify_audit_log,
}
use microagency.Mcp.Audit.Chain.{push_lines}
use microagency.Mcp.Audit.Heads.{IsPrintable, Collision, hashed}
use microagency.Mcp.Audit.Tampered.{verify-head}
use microagency.Mcp.Audit.Intact.{AuditEvent, append, restart, Log}

abbrev up : Text → Text
up [] = []
up (c ∷ s) = suc c ∷ up s

abbrev toy : Keys ℕ
toy = record {
  digest = λ t. 1 ∷ t;
  canonical = λ id entry. suc entry ∷ up id;
  line_size = λ l. length l.run_id + 200;
  sign = some (λ h. some h);
  encode_hex = λ s. 9 ∷ s;
  decode_hex = λ s. some (drop 1 s);
  verify = some text_eq;
}

up-IsPrintable : (s : Text) → IsPrintable (up s)
up-IsPrintable [] = tt
up-IsPrintable (c ∷ s) = ((λ e. absurd (omega (arith, e))), up-IsPrintable s)

abbrev unstarted : AuditState
unstarted = record { audit_hash = []; audit_chained = 0; audit_anchored_at = 0 }

abbrev legacy : FileLine ℕ
legacy = line (record { run_id = codes "run_1"; entry = 3; prev = []; hash = []; sig = [] })

abbrev first : AuditLine ℕ
first = next_audit_line toy unstarted (codes "run_2") 4

abbrev empty_log : Log ℕ
empty_log = record { state = unstarted; file = []; anchors = [] }

abbrev events : List (AuditEvent ℕ)
events =
    append true whole (codes "run_1") 4
    ∷ append true untouched (codes "run_2") 5
    ∷ restart
    ∷ append true whole (codes "run_2") 6
    ∷ []

verify-head_example :
    Collision toy
    ⊎ (hashed toy (push_lines [] (legacy ∷ line first ∷ []))
        ≡ hashed toy (push_lines [] (line first ∷ [])))
unfolding verify_audit_log load_audit next_audit_line chain_hash check_audit_line check_chained
    check_signature text_eq
verify-head_example =
    verify-head toy (λ s. refl) (λ i r. ((λ e. absurd (omega (arith, e))), up-IsPrintable i))
      (legacy ∷ line first ∷ []) (line first ∷ []) (refl, refl) (refl, refl) refl
