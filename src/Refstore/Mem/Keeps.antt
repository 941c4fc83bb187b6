-- ===== src/Refstore/Mem/Keeps.antt =====
-- internal/refstore/mem.go: what a write to the store leaves behind.
use microagency.Base.{
  ℕ, inl, inr, Bool, none, some, List, [], arith, Option-cases, length, Text, text_eq_refl,
  text_eq_iff, ◌-◌, ◌≤◌, ◌<◌, ◌≡◌, ◌∷◌,
}
use microagency.Base.Map
use microagency.Base.Map.{Map, get-retain, IsMap, put-IsMap, retain-IsMap}
use microagency.Refstore.Mem.{Item, MemStore, mint_locked, is_live, evict, sweep_locked, put, get}
use microagency.Refstore.Mem.Sweep.{Visits, Newest, get-evict}
use microagency.Refstore.Mem.Size.{length-evict}

-- A minted handle is not in use.
get-mint_locked :
    (draws : List Text) (items : Map Item) (ref : Text)
    → mint_locked draws items ≡ some ref
    → Map.get ref items ≡ none
unfolding mint_locked
get-mint_locked [] items ref h = absurd (cc)
get-mint_locked (d ∷ draws) items ref h = elim (Option-cases (Map.get d items)) [
  | inl e ↦ ground (arith, e)
  | inr (it, e) ↦ get-mint_locked draws items ref (ground (arith, e))
]

-- The swept map is a map, within the cap, and its newest live entry is there.
sweep-IsBounded :
    (visit : Map Item → Map Item) (now : ℕ) (s : MemStore)
    → Visits visit
    → IsMap s.items
    → 0 < s.max_entries
    → length (sweep_locked visit now s).items ≤ s.max_entries
unfolding sweep_locked
sweep-IsBounded visit now s vis v pos = ground (
  arith,
  length-evict visit s.max_entries s.items vis v,
  length-evict visit s.max_entries (Map.retain (is_live s.ttl now) s.items) vis
      (retain-IsMap (is_live s.ttl now) s.items v),
)

retain-Newest :
    (p : Item → Bool) (ref : Text) (now : ℕ) (m : Map Item)
    → IsMap m
    → Newest ref now m
    → Newest ref now (Map.retain p m)
retain-Newest p ref now m v h r it g ne = h r it (ground (arith, get-retain p r m v)) ne

sweep-get :
    (visit : Map Item → Map Item) (now : ℕ) (s : MemStore) (ref : Text) (new : Item)
    → Visits visit
    → IsMap s.items
    → Map.get ref s.items ≡ some new
    → Newest ref new.created s.items
    → (0 < s.ttl → now - new.created ≤ s.ttl)
    → Map.get ref (sweep_locked visit now s).items ≡ some new
unfolding sweep_locked
sweep-get visit now s ref new vis v g h live =
    let fresh = Map.retain (is_live s.ttl now) s.items in
    let kept : 0 < s.ttl → Map.get ref fresh ≡ some new = λ pos.
      unfold is_live in ground (arith, get-retain (is_live s.ttl now) ref s.items v, live pos) in
    let evicted : 0 < s.ttl
        → 0 < s.max_entries
        → Map.get ref (evict visit s.max_entries fresh) ≡ some new =
      λ pos cap.
        get-evict visit ref new s.max_entries fresh vis (retain-IsMap (is_live s.ttl now) s.items v)
          (kept pos) (retain-Newest (is_live s.ttl now) ref new.created s.items v h) cap in
    ground (arith, kept, evicted, get-evict visit ref new s.max_entries s.items vis v g h)

abbrev written : Text → ℕ → Text → Text → MemStore → MemStore
written ref now payload owner s = record s {
  items = Map.put ref (record { payload = payload; owner = owner; created = now }) s.items;
}

put-written :
    (visit : Map Item → Map Item) (draws : List Text) (now later : ℕ) (payload owner : Text)
    → (s t : MemStore) (ref : Text) → put visit draws now later payload owner s ≡ some (t, ref)
    → (t ≡ sweep_locked visit later (written ref now payload owner s))
      × (Map.get ref s.items ≡ none)
unfolding put
put-written visit draws now later payload owner s t ref h =
    elim (Option-cases (mint_locked draws s.items)) [
      | inl e ↦ absurd (ground arith)
      | inr (r, e) ↦ let unused = get-mint_locked draws s.items r e in (ground arith, ground arith)
    ]

sweep-caps :
    (visit : Map Item → Map Item) (now : ℕ) (s : MemStore)
    → ((sweep_locked visit now s).max_entries ≡ s.max_entries)
      × ((sweep_locked visit now s).ttl ≡ s.ttl)
unfolding sweep_locked
sweep-caps visit now s = ground arith

-- With a cap, the store holds no more entries than it after a write, in whatever order the map is
-- walked.
pub put-IsBounded :
    (visit : Map Item → Map Item) (draws : List Text) (now later : ℕ) (payload owner : Text)
    → (s t : MemStore) (ref : Text) → Visits visit
    → IsMap s.items
    → 0 < s.max_entries
    → put visit draws now later payload owner s ≡ some (t, ref)
    → (length t.items ≤ s.max_entries) × (t.max_entries ≡ s.max_entries)
put-IsBounded visit draws now later payload owner s t ref vis v pos h =
    let (e, unused) = put-written visit draws now later payload owner s t ref h in
    let w = written ref now payload owner s in
    rw e (
      sweep-IsBounded visit later w vis (put-IsMap ref _ s.items v) pos,
      (sweep-caps visit later w).0,
    )

-- A payload that was just written, later than every other entry, is read back under its handle with
-- the owner that it was written for, at any time inside the time to live; the handle was not in use
-- before. Under a cap the write evicts older entries and not this one.
pub get-put_owner :
    (visit : Map Item → Map Item) (draws : List Text) (now later : ℕ) (payload owner : Text)
    → (s t : MemStore) (ref : Text) (when : ℕ) → Visits visit
    → IsMap s.items
    → ((r : Text) (it : Item) → Map.get r s.items ≡ some it → it.created < now)
    → (0 < s.ttl → (later - now ≤ s.ttl) × (when - now ≤ s.ttl))
    → put visit draws now later payload owner s ≡ some (t, ref)
    → ((get when ref t).1 ≡ some (payload, owner)) × (Map.get ref s.items ≡ none)
unfolding get is_live
get-put_owner visit draws now later payload owner s t ref when vis v older inside h =
    let (e, unused) = put-written visit draws now later payload owner s t ref h in
    let w = written ref now payload owner s in
    let new : Item = record { payload = payload; owner = owner; created = now } in
    let there : Map.get ref (sweep_locked visit later w).items ≡ some new =
      sweep-get visit later w ref new vis (put-IsMap ref new s.items v)
        (ground (arith, Map.get-put ref ref new s.items, text_eq_refl ref))
        (λ r it g ne.
          older r it
            (ground (arith, Map.get-put ref r new s.items, text_eq_iff ref r, text_eq_iff r ref)))
        (λ pos. (inside pos).0) in
    (rw e (ground (arith, there, sweep-caps visit later w, inside)), unused)
