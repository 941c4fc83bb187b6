-- ===== src/Auth/Revocation/Laws.antt =====
-- A token identifier is good for one refresh, and stays denied until its own expiry.
use microagency.Base.{
  ℕ, true, false, some, List, [], arith, ltb, All, Text, text_eq, text_eq_refl, text_eq_iff, ◌≤◌,
  ◌<◌, ◌≡◌, ◌≢◌, ◌∷◌, ◌==◌, if◌then◌else◌,
}
use microagency.Base.Map
use microagency.Base.Map.{
  Map, get-put, get-retain, get-remove, IsMap, retain-IsMap, put-IsMap, remove-IsMap,
}
use microagency.Auth.Revocation.{RevocationList, Disk, ok, is_revoked, revoke, consume}

-- The identifier is listed with an expiry that is no earlier than the given one.
abbrev pub Denies : Text → ℕ → RevocationList → Type 0
Denies id expiry r = (e : ℕ) × (Map.get id r.ids ≡ some e) × (expiry ≤ e)

-- The expiry that is listed for `id` after `Revoke` of `j`.
abbrev replaced : Text → Text → ℕ → ℕ → ℕ
replaced j id e' e =
    if text_eq j [] then e else if e' == 0 then e else if text_eq j id then e' else e

pub data Op : Type 0 where
  checks : Text → ℕ → Op
  revokes : Text → ℕ → ℕ → Disk → Op
  consumes : Text → ℕ → ℕ → Disk → Op

unfoldable pub step : RevocationList → Op → RevocationList
step r (checks id now) = (is_revoked r id now).0
step r (revokes id expiry now disk) = (revoke r id expiry now disk).0
step r (consumes id expiry now disk) = (consume r id expiry now disk).0

unfoldable pub run : RevocationList → List Op → RevocationList
unfolding step
run r [] = r
run r (op ∷ ops) = run (step r op) ops

-- The call comes before the given time and, where it revokes the identifier, for no shorter a time.
abbrev pub Respects : Text → ℕ → Op → Type 0
Respects id expiry (checks j now) = now < expiry
Respects id expiry (revokes j e now disk) = (now < expiry) × (j ≡ id → expiry ≤ e)
Respects id expiry (consumes j e now disk) = now < expiry

abbrev pub IsValid : RevocationList → Type 0
IsValid r = IsMap r.ids

-- What `pruneLocked` keeps.
abbrev live : ℕ → Map ℕ → Map ℕ
live now = Map.retain (λ expiry. ltb now expiry)

live-IsMap : (now : ℕ) (m : Map ℕ) → IsMap m → IsMap (live now m)
live-IsMap now m v = retain-IsMap (λ expiry. ltb now expiry) m v

put-live-IsMap : (id : Text) (e now : ℕ) (m : Map ℕ) → IsMap m → IsMap (Map.put id e (live now m))
put-live-IsMap id e now m v = put-IsMap id e (live now m) (live-IsMap now m v)

step-IsValid : (r : RevocationList) (op : Op) → IsValid r → IsValid (step r op)
unfolding step is_revoked revoke consume
step-IsValid r (checks id now) v = ground (arith, remove-IsMap id r.ids v)
step-IsValid r (revokes id expiry now disk) v = ground (arith, put-live-IsMap id expiry now r.ids v)
step-IsValid r (consumes id expiry now disk) v =
    ground (arith, put-live-IsMap id expiry now r.ids v, live-IsMap now r.ids v)

-- A live entry survives pruning.
get-live :
    (id : Text) (e now : ℕ) (m : Map ℕ)
    → IsMap m
    → Map.get id m ≡ some e
    → now < e
    → Map.get id (live now m) ≡ some e
get-live id e now m v g h = ground (arith, get-retain (λ expiry. ltb now expiry) id m v)

step-Denies :
    (id : Text) (expiry : ℕ) (r : RevocationList) (op : Op)
    → IsValid r
    → Respects id expiry op
    → Denies id expiry r
    → Denies id expiry (step r op)
unfolding step is_revoked revoke consume
step-Denies id expiry r (checks j now) v h (e, g, le) =
    (e, ground (arith, get-remove j id r.ids, text_eq_iff j id), le)
step-Denies id expiry r (revokes j e' now disk) v h (e, g, le) = (
  replaced j id e' e,
  ground (arith, get-live id e now r.ids v g, get-put j id e' (live now r.ids), text_eq_iff j id),
  ground (arith, text_eq_iff j id),
)
step-Denies id expiry r (consumes j e' now disk) v h (e, g, le) = (
  e,
  ground (arith, get-live id e now r.ids v g, get-put j id e' (live now r.ids), text_eq_iff j id),
  le,
)

run-Denies :
    (id : Text) (expiry : ℕ) (r : RevocationList) (ops : List Op)
    → IsValid r
    → All (Respects id expiry) ops
    → Denies id expiry r
    → Denies id expiry (run r ops) × IsValid (run r ops)
unfolding run
run-Denies id expiry r [] v h d = (d, v)
run-Denies id expiry r (op ∷ ops) v h d =
    run-Denies id expiry (step r op) ops (step-IsValid r op v) h.1
      (step-Denies id expiry r op v h.0 d)

-- An identifier that is denied is refused by `Consume` and found by `IsRevoked`.
Denies-refused :
    (id : Text) (expiry : ℕ) (r : RevocationList) (now e' : ℕ) (disk : Disk)
    → id ≢ []
    → 0 < e'
    → now < expiry
    → IsValid r
    → Denies id expiry r
    → ((consume r id e' now disk).1 ≡ ok false) × ((is_revoked r id now).1 ≡ true)
unfolding consume is_revoked
Denies-refused id expiry r now e' disk ne pos lt v (e, g, le) =
    ground (arith, get-live id e now r.ids v g, text_eq_iff id [])

-- A successful `Consume` or `Revoke` lists the identifier with the expiry that it was given.
consume-Denies :
    (id : Text) (expiry : ℕ) (r : RevocationList) (now : ℕ) (disk : Disk)
    → (consume r id expiry now disk).1 ≡ ok true
    → Denies id expiry (consume r id expiry now disk).0
unfolding consume
consume-Denies id expiry r now disk h =
    (expiry, ground (arith, get-put id id expiry (live now r.ids), text_eq_refl id), omega arith)

consume-ne-nil :
    (id : Text) (expiry : ℕ) (r : RevocationList) (now : ℕ) (disk : Disk)
    → (consume r id expiry now disk).1 ≡ ok true
    → id ≢ []
unfolding consume
consume-ne-nil id expiry r now disk h = ground (arith, text_eq_iff id [])

consume-IsValid :
    (id : Text) (expiry : ℕ) (r : RevocationList) (now : ℕ) (disk : Disk)
    → IsValid r
    → IsValid (consume r id expiry now disk).0
unfolding step
consume-IsValid id expiry r now disk v = step-IsValid r (consumes id expiry now disk) v

-- After a `Consume` that succeeded, and any calls made before the expiry that do not shorten the
-- entry, a further `Consume` of the identifier before its expiry is refused as a replay and
-- `IsRevoked` finds it.
pub consume_once :
    (id : Text) (expiry : ℕ) (r : RevocationList) (t : ℕ) (disk disk' : Disk) (ops : List Op)
    (now e' : ℕ)
    → IsValid r
    → (consume r id expiry t disk).1 ≡ ok true
    → All (Respects id expiry) ops
    → now < expiry
    → 0 < e'
    → let s = run (consume r id expiry t disk).0 ops in
      ((consume s id e' now disk').1 ≡ ok false) × ((is_revoked s id now).1 ≡ true)
consume_once id expiry r t disk disk' ops now e' v h resp lt pos =
    let kept =
      run-Denies id expiry (consume r id expiry t disk).0 ops (consume-IsValid id expiry r t disk v)
        resp (consume-Denies id expiry r t disk h) in
    Denies-refused id expiry _ now e' disk' (consume-ne-nil id expiry r t disk h) pos lt kept.1
      kept.0
