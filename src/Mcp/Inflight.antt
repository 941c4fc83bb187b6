-- ===== src/Mcp/Inflight.antt =====
-- internal/mcp/inflight.go: the cache that lets a slow read finish after its caller gave up. A call
-- has an identity, as Go's pointers do; `running` lists the detached executions, with the call that
-- each one holds. `ask` is the part of `do` under the lock, `finish` the end of a detached execution.
-- Times are nanoseconds.
pub mod Single
pub mod Cached
use microagency.Base.{
  ℕ, Bool, true, false, not, Option, none, some, [], ltb, leb, length, Text, ◌+◌, ◌-◌, ◌≡◌, ◌∷◌,
  ◌==◌, if◌then◌else◌,
}
use microagency.Base.Map
use microagency.Base.Map.{Map}

pub data Result : Type 0 where
  ok failed : Text → Result

-- What a completed call holds, with the time of its completion.
pub record Done : Type 0 where
  pub result : Result
  pub at : ℕ

pub record Call : Type 0 where
  pub id : ℕ
  pub done : Option Done

pub record Inflight : Type 0 where
  pub calls : Map Call
  pub running : Map ℕ
  pub next : ℕ

abbrev pub inflight_ttl : ℕ
inflight_ttl = 90000000000

abbrev pub max_inflight : ℕ
max_inflight = 256

unfoldable pub new_inflight : Inflight
new_inflight = record { calls = []; running = []; next = 0 }

-- A call that the sweep keeps: it runs, or is not older than the time to live.
unfoldable pub sweeps_past : ℕ → Call → Bool
sweeps_past now c = elim c.done [ none ↦ true | some d ↦ not (ltb inflight_ttl (now - d.at)) ]

unfoldable pub sweep_locked : ℕ → Inflight → Inflight
unfolding sweeps_past
sweep_locked now f = record f { calls = Map.retain (sweeps_past now) f.calls }

-- What the caller does next: it has a result, waits for a call, or runs the function itself.
pub data Asked : Type 0 where
  cached : Result → Asked
  waits : ℕ → Asked
  inline : Asked

-- No call is there for the key. An execution that the caller runs inline is not in `running`.
unfoldable pub launch : Text → ℕ → Inflight → Inflight × Asked
unfolding sweep_locked
launch key now f =
    let swept = sweep_locked now f in
    if leb max_inflight (length swept.calls) then (swept, inline) else (
      record {
        calls = Map.put key (record { id = f.next; done = none }) swept.calls;
        running = (key, f.next) ∷ swept.running;
        next = f.next + 1;
      },
      waits f.next,
    )

unfoldable pub ask : Text → ℕ → Inflight → Inflight × Asked
unfolding launch
ask key now f = elim (Map.get key f.calls) [
  | none ↦ launch key now f
  | some c ↦ elim c.done [
    | none ↦ (f, waits c.id)
    | some d ↦
        if ltb (now - d.at) inflight_ttl
        then (f, cached d.result)
        else launch key now (record f { calls = Map.remove key f.calls })
  ]
]

unfoldable pub is_failed : Result → Bool
is_failed (ok _) = false
is_failed (failed _) = true

-- The completion is written to the call; a failure is then dropped, if the key still has that call.
unfoldable pub finish : Text → ℕ → Result → ℕ → Inflight → Inflight
unfolding is_failed
finish key id r now f =
    let stopped = record f { running = Map.remove key f.running } in
    elim (Map.get key f.calls) [
      | none ↦ stopped
      | some c ↦
          if c.id == id
          then record stopped {
            calls =
                if is_failed r
                then Map.remove key f.calls
                else Map.put key (record { id = id; done = some (record { result = r; at = now }) })
                    f.calls;
          }
          else stopped
    ]

-- One step of some caller, or of the execution for a key.
pub data Step : Inflight → Inflight → Type 0 where
  asks : (key : Text) (now : ℕ) (f : Inflight) → Step f (ask key now f).0
  finishes :
      (key : Text) (id : ℕ) (r : Result) (now : ℕ) (f : Inflight)
      → Map.get key f.running ≡ some id
      → Step f (finish key id r now f)

-- What the steps lead to from a new cache, in any interleaving.
pub data Reachable : Inflight → Type 0 where
  starts : Reachable new_inflight
  steps : (f g : Inflight) → Reachable f → Step f g → Reachable g
