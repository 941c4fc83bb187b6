-- ===== src/Mcp/Inflight/Single.antt =====
-- internal/mcp/inflight.go: the executions and the calls of the cache, in every interleaving.
use microagency.Base.{
  ℕ, sym, inl, inr, false, none, some, [], arith, ltb, leb, Option-cases, length, Text,
  text_eq_refl, text_eq_iff, if_cases, option_cases, ◌+◌, ◌-◌, ◌≤◌, ◌<◌, ◌≡◌, ◌∷◌, if◌then◌else◌,
}
use mathlib.Core.Path.{subst}
use microagency.Base.Map
use microagency.Base.Map.{
  Map, AllValues, get-put, get-remove, get-retain, IsMap, put-IsMap, retain-IsMap, remove-IsMap,
  length-put-le, length-put_old, length-retain-le, length-remove-le, put-AllValues,
  retain-AllValues,
}
use microagency.Mcp.Inflight.{
  Inflight, Call, Done, Result, Asked, waits, inline, new_inflight, sweeps_past, sweep_locked,
  launch, ask, is_failed, finish, Step, asks, finishes, Reachable, starts, steps,
}

-- A completed call did not fail.
abbrev pub IsGood : Call → Type 0
IsGood c = elim c.done [ none ↦ Unit {0} | some d ↦ is_failed d.result ≡ false ]

-- Every execution has its own key, whose call waits for it.
abbrev pub Backed : Inflight → Type 0
Backed f =
    (key : Text) (id : ℕ)
    → Map.get key f.running ≡ some id
    → Map.get key f.calls ≡ some (record { id = id; done = none })

abbrev pub IsValid : Inflight → Type 0
IsValid f =
    IsMap f.calls × IsMap f.running × Backed f × AllValues IsGood f.calls × (length f.calls ≤ 256)

remove-AllValues {ℓ κ} :
    {V : Type ℓ} (P : V → Type κ) (key : Text) (m : Map V)
    → AllValues P m
    → AllValues P (Map.remove key m)
unfolding Map.remove
remove-AllValues P key [] h = tt
remove-AllValues P key ((k, v) ∷ m) h = ground (arith, remove-AllValues P key m h.1)

swept-IsValid : (now : ℕ) (f : Inflight) → IsValid f → IsValid (sweep_locked now f)
unfolding sweep_locked
swept-IsValid now f (maps, runs, backed, good, few) = (
  retain-IsMap (sweeps_past now) f.calls maps,
  runs,
  λ key id g.
      unfold sweeps_past in
      ground (arith, get-retain (sweeps_past now) key f.calls maps, backed key id g),
  retain-AllValues IsGood (sweeps_past now) f.calls good,
  omega (arith, few, length-retain-le (sweeps_past now) f.calls),
)

started-IsValid :
    (key : Text) (f : Inflight)
    → IsValid f
    → Map.get key f.calls ≡ none
    → length f.calls < 256
    → IsValid (record {
      calls = Map.put key (record { id = f.next; done = none }) f.calls;
      running = (key, f.next) ∷ f.running;
      next = f.next + 1;
    })
unfolding Map.get
started-IsValid key f (maps, runs, backed, good, few) free room =
    let new : Call = record { id = f.next; done = none } in
    (
      put-IsMap key new f.calls maps,
      (
        elim (Option-cases (Map.get key f.running)) [
          | inl e ↦ e
          | inr (id, e) ↦ absurd (ground (arith, backed key id e))
        ],
        runs,
      ),
      λ k id g. ground (arith, get-put key k new f.calls, text_eq_iff key k, backed k id),
      put-AllValues IsGood key new f.calls tt good,
      omega (arith, length-put-le key new f.calls),
    )

launch-IsValid :
    (key : Text) (now : ℕ) (f : Inflight)
    → IsValid f
    → Map.get key f.calls ≡ none
    → IsValid (launch key now f).0
unfolding launch
launch-IsValid key now f v free =
    let swept = sweep_locked now f in
    let w = swept-IsValid now f v in
    if_cases (λ (r : Inflight × Asked). IsValid r.0) (leb 256 (length swept.calls)) _ _ (λ _. w)
      λ room.
        started-IsValid key swept w
          (unfold sweep_locked in ground (arith, get-retain (sweeps_past now) key f.calls v.0))
          (ground arith)

-- A stale call leaves the cache; nothing runs for its key.
dropped-IsValid :
    (key : Text) (c : Call) (d : Done) (f : Inflight)
    → IsValid f
    → Map.get key f.calls ≡ some c
    → c.done ≡ some d
    → IsValid (record f { calls = Map.remove key f.calls })
dropped-IsValid key c d f (maps, runs, backed, good, few) g e = (
  remove-IsMap key f.calls maps,
  runs,
  λ k id h. ground (arith, get-remove key k f.calls, text_eq_iff key k, backed k id h),
  remove-AllValues IsGood key f.calls good,
  omega (arith, length-remove-le key f.calls),
)

ask-IsValid : (key : Text) (now : ℕ) (f : Inflight) → IsValid f → IsValid (ask key now f).0
unfolding ask
ask-IsValid key now f v =
    option_cases (λ (r : Inflight × Asked). IsValid r.0) (Map.get key f.calls) _ _
      (λ free. launch-IsValid key now f v free)
      λ c g.
        option_cases (λ (r : Inflight × Asked). IsValid r.0) c.done _ _ (λ _. v)
          λ d e.
            if_cases (λ (r : Inflight × Asked). IsValid r.0) (ltb (now - d.at) 90000000000) _ _
              (λ _. v)
              λ _.
                launch-IsValid key now (record f { calls = Map.remove key f.calls })
                  (dropped-IsValid key c d f v g e)
                  (ground (arith, get-remove key key f.calls, text_eq_refl key))

-- An execution that ends finds its own call, so the completion is written or dropped.
pub finish-own :
    (key : Text) (id : ℕ) (r : Result) (now : ℕ) (f : Inflight)
    → Backed f
    → Map.get key f.running ≡ some id
    → finish key id r now f ≡ record f {
      calls =
          if is_failed r
          then Map.remove key f.calls
          else Map.put key
              (record { id = id; done = some (record { result = r; at = now }) })
              f.calls;
      running = Map.remove key f.running;
    }
unfolding finish
finish-own key id r now f backed g = ground (arith, backed key id g)

finish-IsValid :
    (key : Text) (id : ℕ) (r : Result) (now : ℕ) (f : Inflight)
    → IsValid f
    → Map.get key f.running ≡ some id
    → IsValid (finish key id r now f)
finish-IsValid key id r now f (maps, runs, backed, good, few) g =
    let new : Call = record { id = id; done = some (record { result = r; at = now }) } in
    subst IsValid (sym (finish-own key id r now f backed g)) (
      if_cases
        (λ (m : Map Call). IsValid (record f { calls = m; running = Map.remove key f.running }))
        (is_failed r) _ _
        (λ _. (
          remove-IsMap key f.calls maps,
          remove-IsMap key f.running runs,
          λ k i h. ground (arith, get-remove key k f.running, get-remove key k f.calls, backed k i),
          remove-AllValues IsGood key f.calls good,
          omega (arith, length-remove-le key f.calls),
        ))
        λ won. (
          put-IsMap key new f.calls maps,
          remove-IsMap key f.running runs,
          λ k i h.
              ground (arith, get-remove key k f.running, get-put key k new f.calls, backed k i),
          put-AllValues IsGood key new f.calls won good,
          omega (
            arith,
            length-put_old key new (record { id = id; done = none }) f.calls (backed key id g),
          ),
        ))

Step-IsValid : {f g : Inflight} → Step f g → IsValid f → IsValid g
Step-IsValid (asks key now f) v = ask-IsValid key now f v
Step-IsValid (finishes key id r now f h) v = finish-IsValid key id r now f v h

-- What holds in every reachable state.
pub all-IsValid : {f : Inflight} → Reachable f → IsValid f
unfolding new_inflight Map.get
all-IsValid starts = (tt, tt, (λ key id g. absurd (cc)), tt, omega arith)
all-IsValid (steps f g r s) = Step-IsValid s (all-IsValid r)

-- A caller is told to run the function itself only if the cache is full.
inline-full :
    (key : Text) (now : ℕ) (f : Inflight)
    → (ask key now f).1 ≡ inline
    → 256 ≤ length (ask key now f).0.calls
unfolding ask launch
inline-full key now f h = ground arith

-- In every interleaving of callers and executions there is at most one detached execution for a key,
-- and the cache holds a waiting call for each; no failure stays in the cache; it never holds more
-- calls than its cap; and a caller runs the function itself, beside what is counted here, only while
-- the cache is at its cap.
pub Reachable-IsValid :
    (f : Inflight)
    → Reachable f
    → IsMap f.running
      × Backed f
      × AllValues IsGood f.calls
      × (length f.calls ≤ 256)
      × ((key : Text) (now : ℕ) → (ask key now f).1 ≡ inline → length (ask key now f).0.calls ≡ 256)
Reachable-IsValid f r =
    let (maps, runs, backed, good, few) = all-IsValid r in
    (
      runs,
      backed,
      good,
      few,
      λ key now h.
          let (_, _, _, _, le) = ask-IsValid key now f (maps, runs, backed, good, few) in
          omega (arith, le, inline-full key now f h),
    )

-- While an execution runs for a key, whatever happened before, every further caller of the key waits
-- for that execution and starts none.
pub ask-running :
    (key : Text) (id now : ℕ) (f : Inflight)
    → Reachable f
    → Map.get key f.running ≡ some id
    → ask key now f ≡ (f, waits id)
unfolding ask
ask-running key id now f r g =
    let (maps, runs, backed, good, few) = all-IsValid r in ground (arith, backed key id g)
