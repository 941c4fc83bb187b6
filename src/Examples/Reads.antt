-- ===== src/Examples/Reads.antt =====
-- A slow read that two callers share.
use microagency.Base.{ℕ, refl, some, arith, length, Text, codes, text_eq, ◌≤◌, ◌≡◌}
use microagency.Base.Map
use microagency.Base.Map.{Map, IsMap, AllValues}
use microagency.Mcp.Inflight.{
  Inflight, ok, cached, waits, inline, new_inflight, launch, ask, finish, is_failed, asks,
  Reachable, starts, steps,
}
use microagency.Mcp.Inflight.Cached.{now_on, asked_at, ask-finish}
use microagency.Mcp.Inflight.Single.{Backed, IsGood, Reachable-IsValid, ask-running}

abbrev key : Text
key = codes "ann/gh/list"

abbrev asked : Inflight
asked = (ask key 10 new_inflight).0

asked-Reachable : Reachable asked
asked-Reachable = steps new_inflight asked starts (asks key 10 new_inflight)

runs : Map.get key asked.running ≡ some 0
unfolding ask launch new_inflight Map.get text_eq Map.retain
runs = refl

Reachable-IsValid_example :
    IsMap asked.running
    × Backed asked
    × AllValues IsGood asked.calls
    × (length asked.calls ≤ 256)
    × ((k : Text) (now : ℕ) → (ask k now asked).1 ≡ inline → length (ask k now asked).0.calls ≡ 256)
Reachable-IsValid_example = Reachable-IsValid asked asked-Reachable

ask-running_example : ask key 20 asked ≡ (asked, waits 0)
ask-running_example = ask-running key 0 20 asked asked-Reachable runs

-- The execution ended, and a caller of another key came.
abbrev finished : Inflight
finished = finish key 0 (ok (codes "[]")) 30 asked

abbrev passed : Inflight
passed = (ask (codes "other") 35 finished).0

ask-finish_example : ask key 40 passed ≡ (passed, cached (ok (codes "[]")))
unfolding is_failed
ask-finish_example =
    ask-finish key 0 30 40 (ok (codes "[]")) asked passed asked-Reachable runs refl
      (asked_at (codes "other") 35 now_on (omega arith)) (omega arith)
