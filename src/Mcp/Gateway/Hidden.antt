-- ===== src/Mcp/Gateway/Hidden.antt =====
-- internal/mcp/gateway.go: what a caller learns of a connection that it may not see.
use microagency.Base.{
  ℕ, refl, sym, ap, inl, inr, Bool, true, false, Option, none, some, arith, Text, codes,
  text_eq_refl, cut_at, ◌≡◌, ◌↔◌, ◌⊎◌, ◌∙◌, if◌then◌else◌,
}
use microagency.Base.Map
use microagency.Base.Map.{get-remove}
use microagency.Mcp.Packages.{Packages}
use microagency.Mcp.Json.{Json}
use microagency.Mcp.Grant.{OperationGrant}
use microagency.Mcp.Ledger.{Crypto, Outcome}
use microagency.Mcp.Gateway.{Tool, Upstream}
use microagency.Mcp.Gateway.Visible.{matching_grant, is_owned_by_other}
use microagency.Mcp.Gateway.Invoke.{
  Context, caller_key, Reply, unknown_tool, not_authorized, not_qualified, Answer, State, deny,
  is_governed, turn_away, live_call, call_known, call_named, invoke_upstream,
}

-- The answer to a caller that may not know of a connection.
abbrev opaque : Bool → Answer
opaque true = not_authorized
opaque false = unknown_tool

false≢true : false ≡ true → ⊥
false≢true e = cc

picked :
    (b : Bool) (x : State × Answer) (s : State)
    → x.1 ≡ not_authorized
    → (if b then x else (s, unknown_tool)).1 ≡ opaque b
picked true x s h = h
picked false x s h = refl

first_or_second :
    (a b : Bool) (x y z : State × Answer) (w : Answer)
    → (a ≡ true) ⊎ (b ≡ true)
    → x.1 ≡ w
    → y.1 ≡ w
    → (if a then x else if b then y else z).1 ≡ w
first_or_second true b x y z w h e f = e
first_or_second false true x y z w h e f = f
first_or_second false false x y z w (inl h) e f = absurd (false≢true h)
first_or_second false false x y z w (inr h) e f = absurd (false≢true h)

is_denial : Answer → Bool
is_denial not_authorized = true
is_denial _ = false

opaque_iff : (a b : Bool) → (opaque a ≡ opaque b) ↔ (a ≡ b)
unfolding is_denial
opaque_iff true true = (λ _. refl, λ _. refl)
opaque_iff true false =
    (λ e. absurd (false≢true (sym (ap is_denial e))), λ e. absurd (false≢true (sym e)))
opaque_iff false true = (λ e. absurd (false≢true (ap is_denial e)), λ e. absurd (false≢true e))
opaque_iff false false = (λ _. refl, λ _. refl)

module _ (p : Packages) (gaps : Tool → Text → Bool) (ctx : Context) (reply : Reply) (now : ℕ)
    (c : Crypto) (decode : Text → Option Json) (marshal : OperationGrant → Text)
    (high_assurance : Bool) (o : Outcome) where
  abbrev invoke : Text → Text → State → State × Answer
  invoke = invoke_upstream p gaps ctx reply now c decode marshal high_assurance o

  -- Another principal owns the connection, or it is revoked.
  abbrev pub IsHidden : Upstream → Type 0
  IsHidden u = (is_owned_by_other u (caller_key ctx) ≡ true) ⊎ (u.revoked ≡ true)

  turned-answer :
      (up tool : Text) (u : Upstream) (m : Option OperationGrant) (reason : Text) (s : State)
      → (turn_away p gaps ctx reply now c decode marshal high_assurance o up tool u m reason
          unknown_tool s).1
        ≡ opaque (is_governed high_assurance u)
  unfolding turn_away deny
  turned-answer up tool u m reason s = picked (is_governed high_assurance u) _ s refl

  known-answer :
      (up tool name args : Text) (u : Upstream) (s : State)
      → IsHidden u
      → (call_named p gaps ctx reply now c decode marshal high_assurance o up tool name args
          (some u)
          s).1
        ≡ opaque (is_governed high_assurance u)
  unfolding call_named call_known live_call
  known-answer up tool name args u s h =
      let g = matching_grant u.grants (caller_key ctx) ctx.campaign tool in
      first_or_second (is_owned_by_other u (caller_key ctx)) u.revoked _ _ _
        (opaque (is_governed high_assurance u)) h
        (turned-answer up tool u g (codes "caller does not own the connection") s)
        (turned-answer up tool u g (codes "connection authority is revoked") s)

  missing-answer :
      (up tool name args : Text) (s : State)
      → (call_named p gaps ctx reply now c decode marshal high_assurance o up tool name args none
          s).1
        ≡ opaque high_assurance
  unfolding call_named deny
  missing-answer up tool name args s = picked high_assurance _ s refl

  abbrev pub without : Text → State → State
  without up s = record s {
    registry = record s.registry { conns = Map.remove up s.registry.conns };
  }

  removed : (up : Text) (s : State) → Map.get up (without up s).registry.conns ≡ none
  removed up s = get-remove up up s.registry.conns ∙ ground (arith, text_eq_refl up)

  abbrev after : Text → Text → State → Option (Text × Text) → State × Answer
  after name args s none = (s, not_qualified)
  after name args s (some (a, b)) =
      call_named p gaps ctx reply now c decode marshal high_assurance o a b name args
        (Map.get a s.registry.conns) s

  unfolded :
      (name args : Text) (s : State)
      → invoke name args s ≡ after name args s (cut_at (codes "__") name)
  unfolding invoke_upstream
  unfolded name args s = split (cut_at (codes "__") name)
    where
      split :
          (q : Option (Text × Text))
          → (elim q [
            | none ↦ (s, not_qualified)
            | some (a, b) ↦
                call_named p gaps ctx reply now c decode marshal high_assurance o a b name args
                  (Map.get a s.registry.conns)
                  s
          ])
            ≡ after name args s q
      split none = refl
      split (some (a, b)) = refl

  invoked :
      (name args up tool : Text) (s : State) (m : Option Upstream)
      → cut_at (codes "__") name ≡ some (up, tool)
      → Map.get up s.registry.conns ≡ m
      → (invoke name args s).1
        ≡ (call_named p gaps ctx reply now c decode marshal high_assurance o up tool name args m
            s).1
  invoked name args up tool s m e g =
      ap (λ (r : State × Answer). r.1) (unfolded name args s)
      ∙ ap (λ (q : Option (Text × Text)). (after name args s q).1) e
      ∙ ap
          (λ (q : Option Upstream).
            (call_named p gaps ctx reply now c decode marshal high_assurance o up tool name args q
              s).1)
          g

  -- A call of a tool of a connection that another principal owns, or that is revoked, has the answer that
  -- it has where the connection is not registered, exactly if high assurance and the need of a grant are
  -- the same there: always under high assurance, and without it only for a connection without grants.
  pub hidden_answer :
      (name args up tool : Text) (u : Upstream) (s : State)
      → cut_at (codes "__") name ≡ some (up, tool)
      → Map.get up s.registry.conns ≡ some u
      → IsHidden u
      → ((invoke name args s).1 ≡ (invoke name args (without up s)).1)
        ↔ (is_governed high_assurance u ≡ high_assurance)
  hidden_answer name args up tool u s e g h =
      let there = invoked name args up tool s (some u) e g ∙ known-answer up tool name args u s h in
      let away =
        invoked name args up tool (without up s) none e (removed up s)
        ∙ missing-answer up tool name args (without up s) in
      let (f, k) = opaque_iff (is_governed high_assurance u) high_assurance in
      (λ q. f (sym there ∙ (q ∙ away)), λ q. there ∙ (k q ∙ sym away))
