-- ===== src/Mcp/Ledger/Accounts.antt =====
-- internal/mcp/decisionledger.go: how the usage of a grant accounts for its authorizations.
use microagency.Base.{ℕ, List, arith, length, ◌+◌, ◌*◌, ◌≤◌, ◌≡◌, ◌∙◌, ◌∷◌}
use microagency.Mcp.Grant.{OperationGrant, EvaluatedGrant}
use microagency.Mcp.Ledger.{GrantUsage}
use microagency.Mcp.Ledger.Authorize.{recent, charge}
use microagency.Mcp.Ledger.Windows.{
  Authorization, spent, in_window, live, live_among, live-append, recent-live, length-recent,
  in_window-le, live_among_mono,
}

-- Nanoseconds in the window of the rate.
abbrev pub width : OperationGrant → ℕ
width g = g.rate.window_s * 1000000000

-- The authorizations are inside the budgets of the grant.
abbrev pub InBudget : OperationGrant → List Authorization → Type 0
InBudget g t =
    (length t ≤ g.max_requests)
    × (spent t ≤ g.max_bytes)
    × ((now : ℕ) → in_window (g.rate.window_s * 1000000000) now t ≤ g.rate.requests)

-- The usage accounts for the authorizations, all of them up to the time.
abbrev pub Track : OperationGrant → ℕ → List Authorization → GrantUsage → Type 0
Track g last t u =
    (u.requests ≡ length t)
    × (u.bytes ≡ spent t)
    × ((now : ℕ) → last ≤ now → live (width g) now u.times ≡ live_among (width g) now t)
    × ((now : ℕ) → last ≤ now → in_window (width g) now t ≡ live_among (width g) now t)

-- Waiting keeps the account.
pub waited-Track :
    (g : OperationGrant) (last now : ℕ) (t : List Authorization) (u : GrantUsage)
    → last ≤ now
    → Track g last t u
    → Track g now t u
waited-Track g last now t u le (r, b, l, w) =
    (r, b, (λ x h. l x (omega (arith, le, h))), λ x h. w x (omega (arith, le, h)))

-- So does dropping the old times.
pub pruned-Track :
    (g : OperationGrant) (last now : ℕ) (t : List Authorization) (u : GrantUsage)
    → last ≤ now
    → Track g last t u
    → Track g now t (record u { times = recent now g.rate u.times })
pruned-Track g last now t u le (r, b, l, w) = (
  r,
  b,
  (λ x h. recent-live now x g.rate u.times h ∙ l x (omega (arith, le, h))),
  λ x h. w x (omega (arith, le, h)),
)

-- An authorization is charged.
pub charged-Track :
    (g : OperationGrant) (ev : EvaluatedGrant) (reserved last now : ℕ) (t : List Authorization)
    (u : GrantUsage)
    → ev.grant ≡ g
    → last ≤ now
    → Track g last t u
    → Track g now ((now, reserved) ∷ t) (charge ev reserved now u)
unfolding charge spent live_among in_window
charged-Track g ev reserved last now t u e le (r, b, l, w) = rw e (
  omega (arith, r),
  omega (arith, b),
  (λ x h. omega (
    arith,
    live-append (width g) x (recent now g.rate u.times) now,
    recent-live now x g.rate u.times h,
    l x (omega (arith, le, h)),
  )),
  λ x h. ground (arith, w x (omega (arith, le, h)), h),
)

-- An authorization that passes the tests stays inside the budgets.
pub charged-InBudget :
    (g : OperationGrant) (reserved last now : ℕ) (t : List Authorization) (u : GrantUsage)
    → last ≤ now
    → Track g last t u
    → InBudget g t
    → u.requests + 1 ≤ g.max_requests
    → u.bytes + reserved ≤ g.max_bytes
    → length (recent now g.rate u.times) + 1 ≤ g.rate.requests
    → InBudget g ((now, reserved) ∷ t)
unfolding spent in_window
charged-InBudget g reserved last now t u le (r, b, l, w) (calls, bytes, rate) h i j = (
  omega (arith, r, h),
  omega (arith, b, i),
  λ x. ground (
    arith,
    rate x,
    in_window-le (width g) x t,
    live_among_mono (width g) now x t,
    l now le,
    length-recent now g.rate u.times,
    j,
  ),
)
