-- ===== src/Mcp/Audit/Heads.antt =====
-- internal/mcp/auditlog.go: two logs that verify and have the same head.
use mathlib.Core.Path.{subst}
use microagency.Base.{
  ℕ, refl, sym, ap, inl, inr, true, false, List, [], arith, Bool-cases, All, Text, text_eq,
  text_eq_iff, is_empty, ◌≡◌, ◌≢◌, ◌⊎◌, ◌∙◌, ◌∷◌, ◌++◌,
}
use microagency.Mcp.Audit.{
  Keys, AuditLine, FileLine, line, garbage, torn, AuditWalk, walk_start, fail, chain_hash,
  check_audit_line, walk_audit,
}
use microagency.Mcp.Audit.Chain.{
  Chain, begin, link, push_line, push_lines, check-unchained, check-chained,
}

pub walk_audit-cons :
    {R : Type 0} (k : Keys R) (w : AuditWalk) (l : FileLine R) (file : List (FileLine R))
    → (walk_audit k w (l ∷ file)).v.intact ≡ true
    → ((check_audit_line k w l).v.intact ≡ true)
      × (walk_audit k w (l ∷ file) ≡ walk_audit k (check_audit_line k w l) file)
unfolding walk_audit
walk_audit-cons k w l file h = ground arith

-- A line that is no JSON is a break.
pub garbage_broken :
    {R : Type 0} (k : Keys R) (w : AuditWalk)
    → ((check_audit_line k w garbage).v.intact ≡ false)
      × ((check_audit_line k w torn).v.intact ≡ false)
unfolding check_audit_line fail
garbage_broken k w = (refl, refl)

-- No byte of the text is 0.
abbrev pub IsPrintable : Text → Type 0
IsPrintable = All (λ (c : ℕ). c ≢ 0)

no_zero : (s t : Text) → IsPrintable (s ++ 0 ∷ t) → ⊥
no_zero [] t h = h.0 refl
no_zero (c ∷ s) t h = no_zero s t h.1

-- The last 0 stands where it stood.
split_inj :
    (p q c d : Text) → IsPrintable c → IsPrintable d → p ++ 0 ∷ c ≡ q ++ 0 ∷ d → (p ≡ q) × (c ≡ d)
split_inj [] [] c d hc hd e = (refl, ground (arith, e))
split_inj [] (x ∷ q) c d hc hd e =
    let f : c ≡ q ++ 0 ∷ d = ground (arith, e) in absurd (no_zero q d (subst IsPrintable f hc))
split_inj (x ∷ p) [] c d hc hd e =
    let f : p ++ 0 ∷ c ≡ d = ground (arith, e) in
    absurd (no_zero p c (subst IsPrintable (sym f) hd))
split_inj (x ∷ p) (y ∷ q) c d hc hd e =
    let f : (x ≡ y) × (p ++ 0 ∷ c ≡ q ++ 0 ∷ d) = ground (arith, e) in
    let r = split_inj p q c d hc hd f.1 in (rw f.0 (rw r.0 refl), r.1)

Chain-at :
    {R : Type 0} (k : Keys R) (g h : Text) (es fs : List (Text × R))
    → g ≡ h
    → es ≡ fs
    → Chain k g es
    → Chain k h fs
Chain-at k g h es fs e f c = rw (sym e) (rw (sym f) c)

push_chained :
    {R : Type 0} (l : AuditLine R) (es : List (Text × R))
    → is_empty l.hash ≡ false
    → (l.run_id, l.entry) ∷ es ≡ push_line es (line l)
unfolding push_line
push_chained l es e = ground (arith, e)

push_unchained :
    {R : Type 0} (l : AuditLine R) (es : List (Text × R))
    → is_empty l.hash ≡ true
    → es ≡ push_line es (line l)
unfolding push_line
push_unchained l es e = ground (arith, e)

-- Two texts of one hash.
abbrev pub Collision : {R : Type 0} → Keys R → Type 0
Collision k = (s : Text) × (t : Text) × (s ≢ t) × (k.digest s ≡ k.digest t)

module _ {R : Type 0} (k : Keys R) where
  -- The bytes that are hashed for the entries.
  unfoldable pub hashed : List (Text × R) → List Text
  hashed [] = []
  hashed ((id, entry) ∷ es) = k.canonical id entry ∷ hashed es

module _ {R : Type 0} (k : Keys R) (digest-some : (s : Text) → is_empty (k.digest s) ≡ false)
    (canonical-IsPrintable : (i : Text) (r : R) → IsPrintable (k.canonical i r)) where
  -- Equal hashes come from equal bytes, or show a collision.
  chain_hash-cases :
      (p q i j : Text) (r s : R)
      → chain_hash k p i r ≡ chain_hash k q j s
      → Collision k ⊎ ((p ≡ q) × (k.canonical i r ≡ k.canonical j s))
  unfolding chain_hash
  chain_hash-cases p q i j r s e =
      let x = p ++ 0 ∷ k.canonical i r in
      let y = q ++ 0 ∷ k.canonical j s in
      elim (Bool-cases (text_eq x y)) [
        | inl same ↦ inr (
            split_inj p q (k.canonical i r) (k.canonical j s) (canonical-IsPrintable i r)
              (canonical-IsPrintable j s) ((text_eq_iff x y).0 same))
        | inr other ↦ inl (x, y, (λ f. absurd (ground (arith, other, text_eq_iff x y, f))), e)
      ]

  chain_hash_some : (p i : Text) (r : R) (h : Text) → chain_hash k p i r ≡ h → h ≡ [] → ⊥
  unfolding chain_hash
  chain_hash_some p i r h e f = ground (arith, digest-some (p ++ 0 ∷ k.canonical i r))

  cons_same :
      (s t : Text) (x y : List Text) → s ≡ t → Collision k ⊎ (x ≡ y) → Collision k ⊎ (s ∷ x ≡ t ∷ y)
  cons_same s t x y e (inl c) = inl c
  cons_same s t x y e (inr f) = inr (rw e (rw f refl))

  Chain-same :
      {g h : Text} {es fs : List (Text × R)}
      → Chain k g es
      → Chain k h fs
      → g ≡ h
      → Collision k ⊎ (hashed k es ≡ hashed k fs)
  unfolding hashed
  Chain-same begin begin e = inr refl
  Chain-same begin (link {prev} {id} {entry} d) e =
      absurd (chain_hash_some prev id entry _ refl (sym e))
  Chain-same (link {prev} {id} {entry} c) begin e = absurd (chain_hash_some prev id entry _ refl e)
  Chain-same (link {prev = p} {id = i} {entry = r} {es} c)
        (link {prev = q} {id = j} {entry = s} {es = fs} d) e =
      elim (chain_hash-cases p q i j r s e) [
        | inl x ↦ inl x
        | inr (f, g) ↦
            cons_same (k.canonical i r) (k.canonical j s) (hashed k es) (hashed k fs) g
              (Chain-same c d f)
      ]

  line-Chain :
      (w : AuditWalk) (l : FileLine R) (es : List (Text × R))
      → (check_audit_line k w l).v.intact ≡ true
      → Chain k w.prev es
      → Chain k (check_audit_line k w l).prev (push_line es l)
  line-Chain w garbage es h c = absurd (ground (arith, (garbage_broken k w).0))
  line-Chain w torn es h c = absurd (ground (arith, (garbage_broken k w).1))
  line-Chain w (line l) es h c = elim (Bool-cases (is_empty l.hash)) [
    | inl e ↦
        let f = check-unchained k w l h e in
        Chain-at k w.prev _ es _ (sym f.1) (push_unchained l es e) c
    | inr e ↦
        let f = check-chained k w l h e in
        Chain-at k _ _ ((l.run_id, l.entry) ∷ es) _ (f.2 ∙ sym f.3) (push_chained l es e)
          (link (Chain-at k w.prev l.prev es es (sym f.1) refl c))
  ]

  walk_audit-Chain :
      (w : AuditWalk) (file : List (FileLine R)) (es : List (Text × R))
      → (walk_audit k w file).v.intact ≡ true
      → Chain k w.prev es
      → Chain k (walk_audit k w file).prev (push_lines es file)
  unfolding push_lines walk_audit
  walk_audit-Chain w [] es h c = c
  walk_audit-Chain w (l ∷ file) es h c =
      let f = walk_audit-cons k w l file h in
      Chain-at k _ _ (push_lines (push_line es l) file) _ (ap (λ (x : AuditWalk). x.prev) (sym f.1))
        refl
        (walk_audit-Chain (check_audit_line k w l) file (push_line es l)
          (ap (λ (x : AuditWalk). x.v.intact) (sym f.1) ∙ h) (line-Chain w l es f.0 c))

  -- Two intact walks that end with one hash.
  pub walk_audit-head :
      (f g : List (FileLine R))
      → (walk_audit k walk_start f).v.intact ≡ true
      → (walk_audit k walk_start g).v.intact ≡ true
      → (walk_audit k walk_start f).prev ≡ (walk_audit k walk_start g).prev
      → Collision k ⊎ (hashed k (push_lines [] f) ≡ hashed k (push_lines [] g))
  walk_audit-head f g hf hg e =
      Chain-same (walk_audit-Chain walk_start f [] hf begin)
        (walk_audit-Chain walk_start g [] hg begin) e
