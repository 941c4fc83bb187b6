-- ===== src/Mcp/Audit/Appends.antt =====
-- internal/mcp/auditlog.go: lines at the end of a log.
use microagency.Base.{
  refl, sym, ap, Bool, true, false, List, [], arith, text_eq_iff, is_empty, ◌+◌, ◌≡◌, ◌∙◌, ◌∷◌,
  ◌++◌,
}
use microagency.Mcp.Audit.{
  garbage, torn, append_bytes, scan_failed, is_long, Keys, AuditLine, FileLine, line, AuditWalk,
  accepts, chain_hash, check_signature, check_chained, check_audit_line, walk_audit,
}
use microagency.Mcp.Audit.Heads.{walk_audit-cons, garbage_broken}

module _ {R : Type 0} (k : Keys R) where
  -- One line more at the end.
  pub walk_audit-append :
      (w : AuditWalk) (file : List (FileLine R)) (l : FileLine R)
      → (walk_audit k w file).v.intact ≡ true
      → walk_audit k w (file ++ l ∷ []) ≡ check_audit_line k (walk_audit k w file) l
  unfolding walk_audit
  walk_audit-append w [] l h = ground arith
  walk_audit-append w (x ∷ file) l h =
      ground
        (arith, walk_audit-cons k w x file h, walk_audit-append (check_audit_line k w x) file l)

  signed_on :
      (l : AuditLine R) (w : AuditWalk)
      → is_empty l.sig ≡ false
      → accepts k l.hash l.sig ≡ true
      → ((check_signature k l w).v.intact ≡ w.v.intact)
        × ((check_signature k l w).prev ≡ l.hash)
        × ((check_signature k l w).v.chained ≡ w.v.chained)
  unfolding check_signature
  signed_on l w e a = ground (arith, e, a)

  chained_on :
      (l : AuditLine R) (w : AuditWalk)
      → l.prev ≡ w.prev
      → chain_hash k l.prev l.run_id l.entry ≡ l.hash
      → check_chained k l w ≡ check_signature k l w
  unfolding check_chained
  chained_on l w e f =
      ground (
        arith,
        text_eq_iff l.prev w.prev,
        text_eq_iff (chain_hash k l.prev l.run_id l.entry) l.hash,
      )

  -- The next line is checked.
  pub checked_on :
      (l : AuditLine R) (w : AuditWalk)
      → w.v.intact ≡ true
      → is_empty l.run_id ≡ false
      → is_empty l.hash ≡ false
      → l.prev ≡ w.prev
      → chain_hash k l.prev l.run_id l.entry ≡ l.hash
      → is_empty l.sig ≡ false
      → accepts k l.hash l.sig ≡ true
      → ((check_audit_line k w (line l)).v.intact ≡ true)
        × ((check_audit_line k w (line l)).prev ≡ l.hash)
        × ((check_audit_line k w (line l)).v.chained ≡ w.v.chained + 1)
  unfolding check_audit_line
  checked_on l w i r h p c s a =
      let here : AuditWalk = record w {
        v = record w.v { lines = w.v.lines + 1; chained = w.v.chained + 1 };
        seen_chained = true;
      } in
      ground (arith, r, h, chained_on l here p c, signed_on l here s a)

  -- Where the walk is intact, no line is torn.
  pub append_bytes-intact :
      (w : AuditWalk) (file : List (FileLine R)) (l : FileLine R)
      → (walk_audit k w file).v.intact ≡ true
      → append_bytes l file ≡ file ++ l ∷ []
  unfolding append_bytes
  append_bytes-intact w [] l h = refl
  append_bytes-intact w (line x ∷ []) l h = refl
  append_bytes-intact w (garbage ∷ []) l h = refl
  append_bytes-intact w (torn ∷ []) l h =
      absurd (ground (arith, walk_audit-cons k w torn [] h, (garbage_broken k w).1))
  append_bytes-intact w (x ∷ y ∷ ys) l h =
      let g = walk_audit-cons k w x (y ∷ ys) h in
      ap (λ (r : List (FileLine R)). x ∷ r)
        (append_bytes-intact (check_audit_line k w x) (y ∷ ys) l
          (ap (λ (v : AuditWalk). v.v.intact) (sym g.1) ∙ h))

  -- A line that fits keeps the file so.
  pub append_bytes-short :
      (file : List (FileLine R)) (l : FileLine R)
      → scan_failed k file ≡ false
      → is_long k l ≡ false
      → scan_failed k (append_bytes l file) ≡ false
  unfolding append_bytes scan_failed is_long
  append_bytes-short [] l h s = ground (arith, s)
  append_bytes-short (line x ∷ []) l h s = ground (arith, s, h)
  append_bytes-short (garbage ∷ []) l h s = ground (arith, s, h)
  append_bytes-short (torn ∷ []) (line x) h s = refl
  append_bytes-short (torn ∷ []) garbage h s = refl
  append_bytes-short (torn ∷ []) torn h s = refl
  append_bytes-short (x ∷ y ∷ ys) l h s = ground (arith, append_bytes-short (y ∷ ys) l, s, h)

-- Some line is no line of the log, or torn.
unfoldable pub is_broken : {R : Type 0} → List (FileLine R) → Bool
is_broken [] = false
is_broken (line l ∷ file) = is_broken file
is_broken (garbage ∷ file) = true
is_broken (torn ∷ file) = true

module _ {R : Type 0} (k : Keys R) where
  pub append_bytes-broken :
      (file : List (FileLine R)) (l : FileLine R)
      → is_broken file ≡ true
      → is_broken (append_bytes l file) ≡ true
  unfolding append_bytes is_broken
  append_bytes-broken [] l h = absurd (cc)
  append_bytes-broken (line x ∷ []) l h = absurd (cc)
  append_bytes-broken (garbage ∷ []) l h = refl
  append_bytes-broken (torn ∷ []) (line x) h = refl
  append_bytes-broken (torn ∷ []) garbage h = refl
  append_bytes-broken (torn ∷ []) torn h = refl
  append_bytes-broken (line x ∷ y ∷ ys) l h = append_bytes-broken (y ∷ ys) l h
  append_bytes-broken (garbage ∷ y ∷ ys) l h = refl
  append_bytes-broken (torn ∷ y ∷ ys) l h = refl

  pub torn-broken : (file : List (FileLine R)) → is_broken (append_bytes torn file) ≡ true
  unfolding append_bytes is_broken
  torn-broken [] = refl
  torn-broken (line x ∷ []) = refl
  torn-broken (garbage ∷ []) = refl
  torn-broken (torn ∷ []) = refl
  torn-broken (line x ∷ y ∷ ys) = torn-broken (y ∷ ys)
  torn-broken (garbage ∷ y ∷ ys) = refl
  torn-broken (torn ∷ y ∷ ys) = refl

  -- It is found.
  pub walk_audit-broken :
      (w : AuditWalk) (file : List (FileLine R))
      → is_broken file ≡ true
      → (walk_audit k w file).v.intact ≡ false
  unfolding walk_audit is_broken
  walk_audit-broken w [] h = absurd (cc)
  walk_audit-broken w (line l ∷ file) h =
      ground (arith, walk_audit-broken (check_audit_line k w (line l)) file h)
  walk_audit-broken w (garbage ∷ file) h = ground (arith, garbage_broken k w)
  walk_audit-broken w (torn ∷ file) h = ground (arith, garbage_broken k w)
