-- ===== src/Mcp/Audit/Intact.antt =====
-- internal/mcp/auditlog.go: what becomes of the log, across restarts and failed writes.
use microagency.Base.{
  ℕ, refl, sym, ap, Bool, true, false, Option, none, some, List, [], arith, All, Text, is_empty,
  ◌+◌, ◌≤◌, ◌<◌, ◌≡◌, ◌∙◌, ◌∷◌,
}
use microagency.Mcp.Audit.{
  Keys, FileLine, line, Written, whole, untouched, partial, AuditState, AuditAnchor, AuditWalk,
  walk_start, sign_line, accepts, next_audit_line, chain_hash, load_audit, check_audit_line,
  walk_audit, write_audit_line, append_bytes, scan_failed, is_long,
}
use microagency.Mcp.Audit.Restart.{Follows, load_audit-Follows}
use microagency.Mcp.Audit.Appends.{
  walk_audit-append, checked_on, append_bytes-intact, append_bytes-short,
}

-- What happens to the log: the append of an entry, and how its write ends, or a restart that can read
-- the file.
pub data AuditEvent (R : Type 0) : Type 0 where
  append : Bool → Written → Text → R → AuditEvent R
  restart : AuditEvent R

pub record Log (R : Type 0) : Type 0 where
  pub state : AuditState
  pub file : List (FileLine R)
  pub anchors : List AuditAnchor

unfoldable pub keep_anchor : Option AuditAnchor → List AuditAnchor → List AuditAnchor
keep_anchor none anchors = anchors
keep_anchor (some a) anchors = a ∷ anchors

-- A write left a part of its line.
unfoldable pub tears : {R : Type 0} → List (AuditEvent R) → Bool
tears [] = false
tears (append secrets partial id entry ∷ events) = true
tears (append secrets whole id entry ∷ events) = tears events
tears (append secrets untouched id entry ∷ events) = tears events
tears (restart ∷ events) = tears events

module _ {R : Type 0} (k : Keys R) where
  unfoldable pub happen : Log R → AuditEvent R → Log R
  unfolding keep_anchor
  happen g (append secrets written id entry) =
      let r = write_audit_line k secrets written id entry g.state g.file in
      record { state = r.0.0; file = r.0.1; anchors = keep_anchor r.1 g.anchors }
  happen g restart = record g { state = load_audit k true g.file }

  unfoldable pub happen_all : Log R → List (AuditEvent R) → Log R
  unfolding happen
  happen_all g [] = g
  happen_all g (e ∷ events) = happen_all (happen g e) events

  -- Every entry has an id, and its line fits the buffer of the scanner.
  abbrev pub AllSound : Log R → List (AuditEvent R) → Type 0
  AllSound g [] = Unit
  AllSound g (restart ∷ events) = AllSound (happen g restart) events
  AllSound g (append secrets written id entry ∷ events) =
      ((is_empty id ≡ false) × (k.line_size (next_audit_line k g.state id entry) < 16777216))
      × AllSound (happen g (append secrets written id entry)) events

  -- The file verifies, the server stands at its head, and it has the lines that the anchors count.
  pub record IsConsistent (g : Log R) : Type 0 where
    pub is_intact : (walk_audit k walk_start g.file).v.intact ≡ true
    pub is_short : scan_failed k g.file ≡ false
    pub follows : Follows g.state (walk_audit k walk_start g.file)
    pub anchored :
        All (λ (a : AuditAnchor). a.chained ≤ (walk_audit k walk_start g.file).v.chained) g.anchors

All-le :
    (m n : ℕ) (anchors : List AuditAnchor)
    → m ≤ n
    → All (λ (a : AuditAnchor). a.chained ≤ m) anchors
    → All (λ (a : AuditAnchor). a.chained ≤ n) anchors
All-le m n [] h hs = tt
All-le m n (a ∷ anchors) h hs = (omega (arith, h, hs.0), All-le m n anchors h hs.1)

All-keep :
    (n : ℕ) (o : Option AuditAnchor) (anchors : List AuditAnchor)
    → ((a : AuditAnchor) → o ≡ some a → a.chained ≡ n)
    → All (λ (a : AuditAnchor). a.chained ≤ n) anchors
    → All (λ (a : AuditAnchor). a.chained ≤ n) (keep_anchor o anchors)
unfolding keep_anchor
All-keep n none anchors h hs = hs
All-keep n (some a) anchors h hs = (omega (arith, h a refl), hs)

module _ {R : Type 0} (k : Keys R) where
  write-line :
      (secrets : Bool) (id : Text) (entry : R) (s : AuditState) (file : List (FileLine R))
      → let r = write_audit_line k secrets whole id entry s file in
        (r.0.1 ≡ append_bytes (line (next_audit_line k s id entry)) file)
        × (r.0.0.audit_hash ≡ (next_audit_line k s id entry).hash)
        × (r.0.0.audit_chained ≡ s.audit_chained + 1)
        × ((a : AuditAnchor) → r.1 ≡ some a → a.chained ≡ s.audit_chained + 1)
  unfolding write_audit_line
  write-line secrets id entry s file =
      (ground arith, ground arith, ground arith, λ a h. ground (arith, h))

  module _ (digest-some : (s : Text) → is_empty (k.digest s) ≡ false)
      (signed : (h : Text)
        → (is_empty (sign_line k h) ≡ false) × (accepts k h (sign_line k h) ≡ true)) where
    -- The line that is written next checks at the head.
    next-checked :
        (s : AuditState) (id : Text) (entry : R) (w : AuditWalk)
        → is_empty id ≡ false
        → w.v.intact ≡ true
        → Follows s w
        → ((check_audit_line k w (line (next_audit_line k s id entry))).v.intact ≡ true)
          × ((check_audit_line k w (line (next_audit_line k s id entry))).prev
              ≡ (next_audit_line k s id entry).hash)
          × ((check_audit_line k w (line (next_audit_line k s id entry))).v.chained
              ≡ w.v.chained + 1)
    unfolding next_audit_line chain_hash
    next-checked s id entry w i h f =
        let l = next_audit_line k s id entry in
        checked_on k l w h i (digest-some _) f.0 refl (signed l.hash).0 (signed l.hash).1

    whole-IsConsistent :
        (secrets : Bool) (id : Text) (entry : R) (g : Log R)
        → is_empty id ≡ false
        → k.line_size (next_audit_line k g.state id entry) < 16777216
        → IsConsistent k g
        → IsConsistent k (happen k g (append secrets whole id entry))
    unfolding happen
    whole-IsConsistent secrets id entry g i fits c =
        let l = line (next_audit_line k g.state id entry) in
        let w = walk_audit k walk_start g.file in
        let n = next-checked g.state id entry w i c.is_intact c.follows in
        let r = write-line secrets id entry g.state g.file in
        let o = (write_audit_line k secrets whole id entry g.state g.file).1 in
        let h = happen k g (append secrets whole id entry) in
        let t : walk_audit k walk_start h.file ≡ check_audit_line k w l =
          ap (λ (f : List (FileLine R)). walk_audit k walk_start f)
            (r.0 ∙ append_bytes-intact k walk_start g.file l c.is_intact)
          ∙ walk_audit-append k walk_start g.file l c.is_intact in
        let m : w.v.chained + 1 ≡ (walk_audit k walk_start h.file).v.chained =
          sym (ap (λ (x : AuditWalk). x.v.chained) t ∙ n.2) in
        let f : is_long k l ≡ false = unfold is_long in ground (arith, fits) in
        record {
          is_intact = ap (λ (x : AuditWalk). x.v.intact) t ∙ n.0;
          is_short =
              ap (λ (f : List (FileLine R)). scan_failed k f) r.0
              ∙ append_bytes-short k g.file l c.is_short f;
          follows = (
            r.1 ∙ sym (ap (λ (x : AuditWalk). x.prev) t ∙ n.1),
            r.2 ∙ (ap (λ (x : ℕ). x + 1) c.follows.1 ∙ m),
          );
          anchored = rw (sym m) (
              All-keep (w.v.chained + 1) o g.anchors
                (λ a e. r.3 a e ∙ ap (λ (x : ℕ). x + 1) c.follows.1)
                (All-le w.v.chained (w.v.chained + 1) g.anchors (omega arith) c.anchored));
        }

    restart-IsConsistent : (g : Log R) → IsConsistent k g → IsConsistent k (happen k g restart)
    unfolding happen
    restart-IsConsistent g c = record {
      is_intact = c.is_intact;
      is_short = c.is_short;
      follows = load_audit-Follows k g.file c.is_intact c.is_short;
      anchored = c.anchored;
    }

    -- The log stays consistent.
    pub happen_all-IsConsistent :
        (events : List (AuditEvent R)) (g : Log R)
        → AllSound k g events
        → tears events ≡ false
        → IsConsistent k g
        → IsConsistent k (happen_all k g events)
    unfolding happen_all tears
    happen_all-IsConsistent [] g i t c = c
    happen_all-IsConsistent (restart ∷ events) g i t c =
        happen_all-IsConsistent events (happen k g restart) i t (restart-IsConsistent g c)
    happen_all-IsConsistent (append secrets partial id entry ∷ events) g i t c = absurd (cc)
    happen_all-IsConsistent (append secrets untouched id entry ∷ events) g i t c =
        happen_all-IsConsistent events (happen k g (append secrets untouched id entry)) i.1 t
          (unfold happen write_audit_line keep_anchor in c)
    happen_all-IsConsistent (append secrets whole id entry ∷ events) g i t c =
        happen_all-IsConsistent events (happen k g (append secrets whole id entry)) i.1 t
          (whole-IsConsistent secrets id entry g i.0.0 i.0.1 c)
