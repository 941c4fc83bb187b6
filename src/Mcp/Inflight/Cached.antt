-- ===== src/Mcp/Inflight/Cached.antt =====
-- internal/mcp/inflight.go: how long a success is served.
use microagency.Base.{
  ℕ, sym, inl, inr, false, none, some, arith, Bool-cases, Text, text_eq, text_eq_refl, text_eq_iff,
  ◌-◌, ◌<◌, ◌≡◌,
}
use mathlib.Core.Path.{subst}
use microagency.Base.Map
use microagency.Base.Map.{
  Map, AllValues, get-put, get-remove, get-retain, IsMap, put-IsMap, retain-IsMap, remove-IsMap,
  length-put-le, length-put_old, length-retain-le, length-remove-le, put-AllValues,
  retain-AllValues,
}
use microagency.Mcp.Inflight.{
  Inflight, Call, Done, Result, cached, sweeps_past, sweep_locked, launch, ask, is_failed, finish,
  asks, finishes, Reachable, steps,
}
use microagency.Mcp.Inflight.Single.{Backed, all-IsValid, finish-own}

-- The completion of the key's call is in the cache.
abbrev Holds : Text → ℕ → Done → Inflight → Type 0
Holds key id d f = Map.get key f.calls ≡ some (record { id = id; done = some d })

-- What can follow while the completion at this time is young: callers and ends of executions.
pub data Later (at : ℕ) (f : Inflight) : Inflight → Type 0 where
  now_on : Later at f f
  asked_at :
      (key : Text) (now : ℕ) {g : Inflight}
      → Later at f g
      → now - at < 90000000000
      → Later at f (ask key now g).0
  finished_at :
      (key : Text) (id : ℕ) (r : Result) (now : ℕ) {g : Inflight}
      → Later at f g
      → Map.get key g.running ≡ some id
      → Later at f (finish key id r now g)

swept-Holds :
    (key : Text) (id now : ℕ) (d : Done) (f : Inflight)
    → IsMap f.calls
    → now - d.at < 90000000000
    → Holds key id d f
    → Holds key id d (sweep_locked now f)
unfolding sweep_locked sweeps_past
swept-Holds key id now d f maps young h =
    ground (arith, get-retain (sweeps_past now) key f.calls maps)

launch-Holds :
    (key other : Text) (id now : ℕ) (d : Done) (f : Inflight)
    → IsMap f.calls
    → now - d.at < 90000000000
    → text_eq other key ≡ false
    → Holds key id d f
    → Holds key id d (launch other now f).0
unfolding launch
launch-Holds key other id now d f maps young ne h =
    let swept = sweep_locked now f in
    let new : Call = record { id = f.next; done = none } in
    ground (arith, swept-Holds key id now d f maps young h, get-put other key new swept.calls)

ask-Holds :
    (key other : Text) (id now : ℕ) (d : Done) (f : Inflight)
    → IsMap f.calls
    → now - d.at < 90000000000
    → Holds key id d f
    → Holds key id d (ask other now f).0
unfolding ask
ask-Holds key other id now d f maps young h = elim (Bool-cases (text_eq other key)) [
  | inl e ↦ ground (arith, text_eq_iff other key)
  | inr ne ↦
      let dropped = record f { calls = Map.remove other f.calls } in
      ground (
        arith,
        launch-Holds key other id now d f maps young ne h,
        launch-Holds key other id now d dropped (remove-IsMap other f.calls maps) young ne,
        get-remove other key f.calls,
      )
]

finish-Holds :
    (key other : Text) (id i now : ℕ) (r : Result) (d : Done) (f : Inflight)
    → Backed f
    → Map.get other f.running ≡ some i
    → Holds key id d f
    → Holds key id d (finish other i r now f)
finish-Holds key other id i now r d f backed g h =
    let new : Call = record { id = i; done = some (record { result = r; at = now }) } in
    subst (Holds key id d) (sym (finish-own other i r now f backed g)) (
      ground (
        arith,
        backed other i g,
        text_eq_iff other key,
        get-remove other key f.calls,
        get-put other key new f.calls,
      ))

Later-Holds :
    (key : Text) (id : ℕ) (d : Done) (f : Inflight)
    → Reachable f
    → Holds key id d f
    → {g : Inflight} → Later d.at f g
    → Reachable g × Holds key id d g
Later-Holds key id d f reach h now_on = (reach, h)
Later-Holds key id d f reach h (asked_at other now {g} l young) =
    let (r, k) = Later-Holds key id d f reach h l in
    (
      steps g (ask other now g).0 r (asks other now g),
      ask-Holds key other id now d g (all-IsValid r).0 young k,
    )
Later-Holds key id d f reach h (finished_at other i res now {g} l e) =
    let (r, k) = Later-Holds key id d f reach h l in
    (
      steps g (finish other i res now g) r (finishes other i res now g e),
      finish-Holds key other id i now res d g (all-IsValid r).2 e k,
    )

finished-Holds :
    (key : Text) (id at : ℕ) (r : Result) (f : Inflight)
    → Backed f
    → Map.get key f.running ≡ some id
    → is_failed r ≡ false
    → Holds key id (record { result = r; at = at }) (finish key id r at f)
finished-Holds key id at r f backed g won =
    let new : Call = record { id = id; done = some (record { result = r; at = at }) } in
    rw (finish-own key id r at f backed g)
      (ground (arith, won, get-put key key new f.calls, text_eq_refl key))

ask-cached :
    (key : Text) (id now : ℕ) (d : Done) (f : Inflight)
    → Holds key id d f
    → now - d.at < 90000000000
    → ask key now f ≡ (f, cached d.result)
unfolding ask
ask-cached key id now d f h young = ground arith

-- When the execution for a key ends with a success, then whatever callers of any keys and whatever
-- ends of executions follow inside the time to live, a caller of the key inside it gets that result
-- and nothing else changes.
pub ask-finish :
    (key : Text) (id at now : ℕ) (r : Result) (f g : Inflight)
    → Reachable f
    → Map.get key f.running ≡ some id
    → is_failed r ≡ false
    → Later at (finish key id r at f) g
    → now - at < 90000000000
    → ask key now g ≡ (g, cached r)
ask-finish key id at now r f g reach e won later young =
    let d : Done = record { result = r; at = at } in
    let h = finished-Holds key id at r f (all-IsValid reach).2 e won in
    let after = steps f (finish key id r at f) reach (finishes key id r at f e) in
    ask-cached key id now d g (Later-Holds key id d (finish key id r at f) after h later).1 young
